-- ===== src/Client/Threads/Whole.antt =====
-- What reaches the server from two threads: one whole message behind the other.
use resilient_overlay_networ.Base.{ℕ, ◌+◌, ◌≡◌, ◌≤◌, List, ◌++◌, false, All, arith}
use mathlib.Core.List.{flatten}
use resilient_overlay_networ.Client.Transfer.{Socket}
use resilient_overlay_networ.Client.Transfer.Complete.{Delivers}
use resilient_overlay_networ.Client.Transfer.Streams.{Separate}
use resilient_overlay_networ.Client.Threads.{
  IsMessage, Job, idle, waits, holds, gives_up, Threads, Reach,
}
use resilient_overlay_networ.Client.Threads.Order.{job_holds}
use resilient_overlay_networ.Client.Threads.Bytes.{bytes}
use resilient_overlay_networ.Client.Threads.Calls.{IsSound, active, quiet-Sends, Sends-part}
use resilient_overlay_networ.Client.Threads.Apart.{
  main_call, simulator_call, main_call_le, simulator_call_le, Reach-IsApart,
}

active-IsSound : (j k : Job) → IsSound j → IsSound k → IsSound (active j k)
active-IsSound idle k s s' = s'
active-IsSound (waits message) k s s' = s'
active-IsSound (holds message rest) k s s' = s
active-IsSound gives_up k s s' = s

active_le : (j k : Job) → job_holds (active j k) ≤ job_holds j + job_holds k
active_le idle k = omega arith
active_le (waits message) k = omega arith
active_le (holds message rest) k = omega arith
active_le gives_up k = omega arith

module _ {S : Type 0} (socket : Socket S) (laws : Delivers socket) (apart : Separate socket) where
  -- Whatever the order in which the two threads act, and however the system cuts their bytes up: what
  -- the server has got on the present connection is what the negotiations sent on it, then whole
  -- messages, one behind the other, then the beginning of one message; and while no thread holds the
  -- mutex it is whole messages alone. The socket takes at least one byte in each call, and its two
  -- directions are apart.
  pub outgoing-whole :
      {sfd : S} {t : Threads S}
      → Reach socket sfd t
      → All IsMessage t.log
        × (t.mutex ≡ false → socket.outgoing t.sfd ≡ t.opening ++ bytes t.log)
        × ((message : List (List ℕ)) × (part rest : List ℕ) × IsMessage message
            × (flatten message ≡ part ++ rest)
            × (socket.outgoing t.sfd ≡ (t.opening ++ bytes t.log) ++ part))
  outgoing-whole {t} r =
      let h = Reach-IsApart socket laws apart r in
      let job = active (main_call t.main) (simulator_call t.simulator) in
      let sound : IsSound job = active-IsSound _ _ h.main_sound h.simulator_sound in
      (
        h.logged,
        λ free.
            quiet-Sends socket t.opening t.sfd t.log job
              (ground (
                arith,
                free,
                h.order.one_holder,
                active_le (main_call t.main) (simulator_call t.simulator),
                main_call_le t.main,
                simulator_call_le t.simulator,
              ))
              h.sends,
        Sends-part socket t.opening t.sfd t.log job sound h.sends,
      )
