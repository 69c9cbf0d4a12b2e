-- ===== src/Client/Threads/Tests.antt =====
-- Two runs of the two threads, over a slow socket.
use resilient_overlay_networ.Base.{ℕ, ◌+◌, ◌≡◌, ◌≤◌, refl, List, [], ◌∷◌, ◌++◌, true, false, All}
use mathlib.Core.List.{flatten}
use resilient_overlay_networ.Wire.Order.{htonl}
use resilient_overlay_networ.Client.Messages.{change_message}
use resilient_overlay_networ.Client.Slow.{Line, slow, slow-Delivers, slow-Separate}
use resilient_overlay_networ.Client.Threads.{
  IsMessage, of_change, idle, waits, holds, left, call, lock, send, at_lock, blocked, initializing,
  running, Threads, create, main_lock, main_wait, simulator_initialize, simulator_lock,
  simulator_set, simulator_unlock, simulator_signal, simulator_job, start, Reach, here, next,
}
use resilient_overlay_networ.Client.Threads.Order.{
  main_holds, simulator_holds, is_past, has_set, has_signalled,
}
use resilient_overlay_networ.Client.Threads.Ready.{Resumes, started}
use resilient_overlay_networ.Client.Threads.Bytes.{bytes}
use resilient_overlay_networ.Client.Threads.Whole.{outgoing-whole}

-- The main thread was the first to lock the mutex, and waits for the signal.
abbrev waiting : Threads Line
waiting = record (start slow ([], 9 ∷ [])) { main = blocked; simulator = initializing }

reach_waiting : Reach slow ([], 9 ∷ []) waiting
reach_waiting = next (next (next here (create refl)) (main_lock refl refl)) (main_wait refl refl)

started_example :
    (main_holds waiting.main + simulator_holds waiting.simulator ≤ 1)
    × (is_past waiting.main ≡ true → has_set waiting.simulator ≡ true)
    × (waiting.main ≡ blocked → (has_signalled waiting.simulator ≡ false) × Resumes slow waiting)
started_example = started slow reach_waiting

-- The simulator has sent the first byte of a change of an address, behind one of the negotiations.
abbrev change : List ℕ
change = change_message 2 0 7

abbrev part_sent : Threads Line
part_sent = record {
  mutex = true;
  initialized = true;
  sfd = ([], 9 ∷ 0 ∷ []);
  opening = 9 ∷ [];
  log = [];
  main = at_lock;
  simulator = running (holds (change ∷ []) (left 1 change []));
}

reach_part_sent : Reach slow ([], 9 ∷ []) part_sent
unfolding change_message htonl
reach_part_sent =
    let set_up =
      next (next (next here (create refl)) (simulator_initialize refl))
        (simulator_lock refl refl) in
    let ready =
      next (next (next set_up (simulator_set refl)) (simulator_unlock refl))
        (simulator_signal refl) in
    let called =
      next ready (simulator_job idle _ _ _ _ refl (call (change ∷ []) (of_change 2 0 7) refl)) in
    let locked =
      next called
        (simulator_job (waits (change ∷ [])) _ _ _ _ refl (lock (change ∷ []) refl refl)) in
    next locked (
      simulator_job (holds (change ∷ []) (change ∷ [])) _ _ _ _ refl
        (send (change ∷ []) [] change 1 ([], 9 ∷ 0 ∷ []) refl refl))

outgoing-whole_example :
    All IsMessage part_sent.log
    × (part_sent.mutex ≡ false
        → slow.outgoing part_sent.sfd ≡ part_sent.opening ++ bytes part_sent.log)
    × ((message : List (List ℕ)) × (part rest : List ℕ) × IsMessage message
        × (flatten message ≡ part ++ rest)
        × (slow.outgoing part_sent.sfd ≡ (part_sent.opening ++ bytes part_sent.log) ++ part))
outgoing-whole_example = outgoing-whole slow slow-Delivers slow-Separate reach_part_sent
