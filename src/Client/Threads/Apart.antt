-- ===== src/Client/Threads/Apart.antt =====
-- The invariant of what the two threads send, and that every step keeps it.
use resilient_overlay_networ.Base.{
  ℕ, ◌+◌, ◌≡◌, ◌≤◌, refl, ap, sym, [], Bool, true, false, All, arith,
}
use mathlib.Core.List.{append-nil}
use resilient_overlay_networ.Client.Transfer.{Socket}
use resilient_overlay_networ.Client.Transfer.Complete.{Delivers}
use resilient_overlay_networ.Client.Transfer.Streams.{Separate}
use resilient_overlay_networ.Client.Threads.{
  IsMessage, Job, idle, Main, looping, recovering, ended, Simulator, running, Threads, at_lock,
  testing, blocked, woken, tested, initializing, at_mutex, setting, set, signalling, signalled,
  Step, create, main_lock, main_wait, main_wake, main_return, main_leave, main_unlock, main_receive,
  main_job, recover_lock, recover_unlock, simulator_initialize, simulator_lock, simulator_set,
  simulator_unlock, simulator_signal, simulator_job, Reach, here, next,
}
use resilient_overlay_networ.Client.Threads.Order.{
  job_holds, taken, main_holds, simulator_holds, Order, Step-Order, Reach-Order,
}
use resilient_overlay_networ.Client.Threads.Calls.{
  IsSound, active, Sends, Sends-quiet, Sends-outgoing, active_comm, Move-IsSound, Move-Sends,
  Move-log,
}

-- The call that a thread is in.
abbrev pub main_call : Main → Job
main_call (looping job) = job
main_call _ = idle

abbrev pub simulator_call : Simulator → Job
simulator_call (running job) = job
simulator_call _ = idle

main_call-signalled : (main : Main) → main_call (signalled main) ≡ main_call main
main_call-signalled (looping job) = refl
main_call-signalled _ = refl

pub main_call_le : (main : Main) → job_holds (main_call main) ≤ main_holds main
main_call_le (looping job) = omega arith
main_call_le _ = omega arith

pub simulator_call_le :
    (simulator : Simulator) → job_holds (simulator_call simulator) ≤ simulator_holds simulator
simulator_call_le (running job) = omega arith
simulator_call_le _ = omega arith

pub record IsApart {S : Type 0} (socket : Socket S) (t : Threads S) : Type 0 where
  pub order : Order t
  pub main_sound : IsSound (main_call t.main)
  pub simulator_sound : IsSound (simulator_call t.simulator)
  pub logged : All IsMessage t.log
  pub sends :
      Sends socket t.opening t.sfd t.log (active (main_call t.main) (simulator_call t.simulator))

at_most_one :
    {S : Type 0} {t : Threads S}
    → Order t
    → job_holds (main_call t.main) + job_holds (simulator_call t.simulator) ≤ 1
at_most_one {t} o = ground (arith, o.one_holder, main_call_le t.main, simulator_call_le t.simulator)

held :
    {holds_it job_it other other_holds : ℕ} (mutex : Bool)
    → holds_it ≡ job_it
    → holds_it + other_holds ≡ taken mutex
    → other ≤ other_holds
    → job_it + other ≤ taken mutex
held mutex e h l = omega arith

module _ {S : Type 0} (socket : Socket S) (laws : Delivers socket) (apart : Separate socket) where
  -- A step that sends nothing, and in which no thread enters or ends a call.
  keeps :
      (t : Threads S) (mutex initialized : Bool) (main : Main) (simulator : Simulator)
      → Step socket t (record t {
        mutex = mutex;
        initialized = initialized;
        main = main;
        simulator = simulator;
      })
      → main_call main ≡ main_call t.main
      → simulator_call simulator ≡ simulator_call t.simulator
      → IsApart socket t
      → IsApart socket (record t {
        mutex = mutex;
        initialized = initialized;
        main = main;
        simulator = simulator;
      })
  keeps t mutex initialized main simulator step e f h = record {
    order = Step-Order socket step h.order;
    main_sound = rw e h.main_sound;
    simulator_sound = rw f h.simulator_sound;
    logged = h.logged;
    sends = rw (e, f) h.sends;
  }

  -- A new connection was made under the mutex.
  recovered :
      (t : Threads S) (sfd' : S) (main : Main)
      → Order (record t {
        mutex = false;
        sfd = sfd';
        opening = socket.outgoing sfd';
        log = [];
        main = main;
      })
      → t.main ≡ recovering
      → main_call main ≡ idle
      → IsApart socket t
      → IsApart socket (record t {
        mutex = false;
        sfd = sfd';
        opening = socket.outgoing sfd';
        log = [];
        main = main;
      })
  recovered t sfd' main order e c h =
      let quiet : job_holds (simulator_call t.simulator) ≡ 0 =
        ground (arith, h.order.one_holder, ap main_holds e, simulator_call_le t.simulator) in
      record {
        order = order;
        main_sound = rw c tt;
        simulator_sound = h.simulator_sound;
        logged = tt;
        sends = rw c (
            Sends-quiet socket (socket.outgoing sfd') sfd' [] (simulator_call t.simulator) quiet
              (sym (append-nil (socket.outgoing sfd'))));
      }

  Step-IsApart : {t u : Threads S} → Step socket t u → IsApart socket t → IsApart socket u
  Step-IsApart {t} (create e) h =
      let s : simulator_call t.simulator ≡ idle = ground (arith, h.order.unborn_when) in
      keeps t t.mutex t.initialized at_lock initializing (create e) (sym (ap main_call e)) (sym s) h
  Step-IsApart {t} (main_lock e f) h =
      keeps t true t.initialized testing t.simulator (main_lock e f) (sym (ap main_call e)) refl h
  Step-IsApart {t} (main_wait e f) h =
      keeps t false t.initialized blocked t.simulator (main_wait e f) (sym (ap main_call e)) refl h
  Step-IsApart {t} (main_wake e) h =
      keeps t t.mutex t.initialized woken t.simulator (main_wake e) (sym (ap main_call e)) refl h
  Step-IsApart {t} (main_return e f) h =
      keeps t true t.initialized testing t.simulator (main_return e f) (sym (ap main_call e)) refl h
  Step-IsApart {t} (main_leave e f) h =
      keeps t t.mutex t.initialized tested t.simulator (main_leave e f) (sym (ap main_call e)) refl
        h
  Step-IsApart {t} (main_unlock e) h =
      keeps t false t.initialized (looping idle) t.simulator (main_unlock e) (sym (ap main_call e))
        refl h
  Step-IsApart {t} (main_receive size piece sfd' e f) h = record {
    order = Step-Order socket (main_receive size piece sfd' e f) h.order;
    main_sound = h.main_sound;
    simulator_sound = h.simulator_sound;
    logged = h.logged;
    sends =
        Sends-outgoing socket t.opening t.sfd sfd' t.log _
          (apart.recv_keeps t.sfd sfd' size piece f) h.sends;
  }
  Step-IsApart {t} (main_job job job' mutex' sfd' log' e m) h =
      let c = ap main_call e in
      let s : IsSound job = rw c at h.main_sound in
      record {
        order = Step-Order socket (main_job job job' mutex' sfd' log' e m) h.order;
        main_sound = Move-IsSound socket laws m s;
        simulator_sound = h.simulator_sound;
        logged = Move-log socket laws m s h.logged;
        sends =
            Move-Sends socket laws t.opening (simulator_call t.simulator) m
              (held t.mutex (ap main_holds e) h.order.one_holder (simulator_call_le t.simulator)) s
              (rw c at h.sends);
      }
  Step-IsApart {t} (recover_lock e f) h =
      keeps t true t.initialized recovering t.simulator (recover_lock e f) (sym (ap main_call e))
        refl h
  Step-IsApart {t} (recover_unlock sfd' true e) h =
      recovered t sfd' (looping idle) (Step-Order socket (recover_unlock sfd' true e) h.order) e
        refl h
  Step-IsApart {t} (recover_unlock sfd' false e) h =
      recovered t sfd' ended (Step-Order socket (recover_unlock sfd' false e) h.order) e refl h
  Step-IsApart {t} (simulator_initialize e) h =
      keeps t t.mutex t.initialized t.main at_mutex (simulator_initialize e) refl
        (sym (ap simulator_call e)) h
  Step-IsApart {t} (simulator_lock e f) h =
      keeps t true t.initialized t.main setting (simulator_lock e f) refl
        (sym (ap simulator_call e)) h
  Step-IsApart {t} (simulator_set e) h =
      keeps t t.mutex true t.main set (simulator_set e) refl (sym (ap simulator_call e)) h
  Step-IsApart {t} (simulator_unlock e) h =
      keeps t false t.initialized t.main signalling (simulator_unlock e) refl
        (sym (ap simulator_call e)) h
  Step-IsApart {t} (simulator_signal e) h =
      keeps t t.mutex t.initialized (signalled t.main) (running idle) (simulator_signal e)
        (main_call-signalled t.main) (sym (ap simulator_call e)) h
  Step-IsApart {t} (simulator_job job job' mutex' sfd' log' e m) h =
      let c = ap simulator_call e in
      let s : IsSound job = rw c at h.simulator_sound in
      let order = Step-Order socket (simulator_job job job' mutex' sfd' log' e m) h.order in
      let both : simulator_holds t.simulator + main_holds t.main ≡ taken t.mutex =
        omega (arith, h.order.one_holder) in
      let first =
        active_comm socket t.opening t.sfd t.log (main_call t.main) (simulator_call t.simulator)
          (at_most_one h.order) h.sends in
      record {
        order = order;
        main_sound = h.main_sound;
        simulator_sound = Move-IsSound socket laws m s;
        logged = Move-log socket laws m s h.logged;
        sends =
            active_comm socket t.opening sfd' log' job' (main_call t.main)
              (omega (arith, at_most_one order))
              (Move-Sends socket laws t.opening (main_call t.main) m
                (held t.mutex (ap simulator_holds e) both (main_call_le t.main)) s (rw c at first));
      }

  pub Reach-IsApart : {sfd : S} {t : Threads S} → Reach socket sfd t → IsApart socket t
  Reach-IsApart {sfd} here = record {
    order = Reach-Order socket {sfd = sfd} here;
    main_sound = tt;
    simulator_sound = tt;
    logged = tt;
    sends = sym (append-nil (socket.outgoing sfd));
  }
  Reach-IsApart (next r step) = Step-IsApart step (Reach-IsApart r)
