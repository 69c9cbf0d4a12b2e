-- ===== src/Client/Threads/Ready.antt =====
-- When the main thread goes on to the frames of the server, and that it does.
use resilient_overlay_networ.Base.{◌+◌, ◌≡◌, ◌≤◌, refl, ap, true, false, arith}
use resilient_overlay_networ.Client.Transfer.{Socket}
use resilient_overlay_networ.Client.Threads.{
  blocked, looping, idle, Simulator, unborn, initializing, at_mutex, setting, set, signalling,
  running, Threads, signalled, Step, main_return, main_leave, main_unlock, simulator_initialize,
  simulator_lock, simulator_set, simulator_unlock, simulator_signal, Reach,
}
use resilient_overlay_networ.Client.Threads.Order.{
  main_holds, simulator_holds, is_past, has_set, has_signalled, Order, Reach-Order,
}

-- Any further steps.
pub data Steps {S : Type 0} (socket : Socket S) : Threads S → Threads S → Type 0 where
  stop : (t : Threads S) → Steps socket t t
  then : {t u v : Threads S} → Step socket t u → Steps socket u v → Steps socket t v

module _ {S : Type 0} (socket : Socket S) where
  abbrev pub Resumes : Threads S → Type 0
  Resumes t = (u : Threads S) × Steps socket t u × (u.main ≡ looping idle)

  before : {t u : Threads S} → Step socket t u → Resumes u → Resumes t
  before step (v, steps, e) = (v, then step steps, e)

  -- What is left to do for the simulator, and then for the main thread.
  from_signalling :
      (t : Threads S)
      → t.main ≡ blocked
      → t.simulator ≡ signalling
      → t.mutex ≡ false
      → t.initialized ≡ true
      → Resumes t
  from_signalling t m s f i = before (simulator_signal s) (
      before (main_return (ap signalled m) f)
        (before (main_leave refl i) (before (main_unlock refl) (_, stop _, refl))))

  from_setting : (t : Threads S) → t.main ≡ blocked → t.simulator ≡ setting → Resumes t
  from_setting t m s =
      before (simulator_set s) (before (simulator_unlock refl) (from_signalling _ m refl refl refl))

  from_mutex :
      (t : Threads S) → t.main ≡ blocked → t.simulator ≡ at_mutex → t.mutex ≡ false → Resumes t
  from_mutex t m s f = before (simulator_lock s f) (from_setting _ m refl)

  blocked_case :
      (t : Threads S) (simulator : Simulator)
      → t.simulator ≡ simulator
      → t.main ≡ blocked
      → Order t
      → Resumes t
  blocked_case t unborn s m o = absurd (ground (arith, o.unborn_when))
  blocked_case t initializing s m o =
      before (simulator_initialize s) (from_mutex _ m refl (ground (arith, o.one_holder)))
  blocked_case t at_mutex s m o = from_mutex t m s (ground (arith, o.one_holder))
  blocked_case t setting s m o = from_setting t m s
  blocked_case t set s m o =
      before (simulator_unlock s) (from_signalling _ m refl refl (ground (arith, o.set_when)))
  blocked_case t signalling s m o =
      from_signalling t m s (ground (arith, o.one_holder)) (ground (arith, o.set_when))
  blocked_case t (running job) s m o = absurd (ground (arith, o.blocked_when))

  -- Whatever the order in which the two threads of a started simulation act: at most one of them
  -- holds the mutex; the main thread goes behind its loop on `initialized`, and so on to the frames
  -- of the server, only when `initialize` has ended; and where it is blocked on the condition
  -- variable, the signal is still to come, and there are further steps that take it to its loop.
  pub started :
      {sfd : S} {t : Threads S}
      → Reach socket sfd t
      → (main_holds t.main + simulator_holds t.simulator ≤ 1)
        × (is_past t.main ≡ true → has_set t.simulator ≡ true)
        × (t.main ≡ blocked → (has_signalled t.simulator ≡ false) × Resumes t)
  started {t} r =
      let o = Reach-Order socket r in
      (
        ground (arith, o.one_holder),
        λ p. ground (arith, o.past_when, o.set_when),
        λ b. (ground (arith, o.blocked_when), blocked_case t t.simulator refl b o),
      )
