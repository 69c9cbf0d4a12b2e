-- ===== src/Client/Threads/Calls.antt =====
-- One call of `sendFrame` or of a notification in base/cf.cpp, while another may be on the way.
use resilient_overlay_networ.Base.{
  ℕ, ◌+◌, ◌≡◌, ◌≤◌, ◌<◌, refl, ap, sym, ◌∙◌, List, [], ◌∷◌, ◌++◌, some, Bool, length, take, All,
  arith,
}
use mathlib.Core.List.{append-nil, append_assoc, flatten}
use resilient_overlay_networ.Client.Transfer.{Socket}
use resilient_overlay_networ.Client.Transfer.Complete.{Delivers}
use resilient_overlay_networ.Client.Threads.{
  IsMessage, of_refused_frame, Job, idle, waits, holds, gives_up, left, Move, call, lock, send,
  error, unlock, release,
}
use resilient_overlay_networ.Client.Threads.Order.{job_holds, taken}
use resilient_overlay_networ.Client.Threads.Bytes.{
  bytes, bytes-append, IsFull, IsMessage-IsFull, left-flatten, left-IsFull,
}

-- A job is on a message, and no `send` on it fails.
abbrev pub IsSound : Job → Type 0
IsSound idle = Unit {0}
IsSound (waits message) = IsMessage message
IsSound (holds message rest) = IsMessage message × All IsFull rest
IsSound gives_up = ⊥

-- Of two jobs the one that holds the mutex, if one of them does.
abbrev pub active : Job → Job → Job
active idle k = k
active (waits message) k = k
active (holds message rest) k = holds message rest
active gives_up k = gives_up

module _ {S : Type 0} (socket : Socket S) where
  -- What was sent, with a job that holds the mutex or does not.
  abbrev pub Sends : List ℕ → S → List (List (List ℕ)) → Job → Type 0
  Sends opening sfd log idle = socket.outgoing sfd ≡ opening ++ bytes log
  Sends opening sfd log (waits message) = socket.outgoing sfd ≡ opening ++ bytes log
  Sends opening sfd log (holds message rest) =
      (part : List ℕ) × (socket.outgoing sfd ≡ (opening ++ bytes log) ++ part)
      × (flatten message ≡ part ++ flatten rest)
  Sends opening sfd log gives_up = ⊥

  pub Sends-quiet :
      (opening : List ℕ) (sfd : S) (log : List (List (List ℕ))) (job : Job)
      → job_holds job ≡ 0
      → socket.outgoing sfd ≡ opening ++ bytes log
      → Sends opening sfd log job
  Sends-quiet opening sfd log idle h e = e
  Sends-quiet opening sfd log (waits message) h e = e
  Sends-quiet opening sfd log (holds message rest) h e = absurd (omega arith)
  Sends-quiet opening sfd log gives_up h e = absurd (omega arith)

  pub quiet-Sends :
      (opening : List ℕ) (sfd : S) (log : List (List (List ℕ))) (job : Job)
      → job_holds job ≡ 0
      → Sends opening sfd log job
      → socket.outgoing sfd ≡ opening ++ bytes log
  quiet-Sends opening sfd log idle h e = e
  quiet-Sends opening sfd log (waits message) h e = e
  quiet-Sends opening sfd log (holds message rest) h e = absurd (omega arith)
  quiet-Sends opening sfd log gives_up h e = absurd (omega arith)

  -- The job that is active does not depend on which thread is named first.
  pub active_comm :
      (opening : List ℕ) (sfd : S) (log : List (List (List ℕ))) (j k : Job)
      → job_holds j + job_holds k ≤ 1
      → Sends opening sfd log (active j k)
      → Sends opening sfd log (active k j)
  active_comm opening sfd log idle idle h s = s
  active_comm opening sfd log idle (waits m) h s = s
  active_comm opening sfd log idle (holds m r) h s = s
  active_comm opening sfd log idle gives_up h s = s
  active_comm opening sfd log (waits m) idle h s = s
  active_comm opening sfd log (waits m) (waits n) h s = s
  active_comm opening sfd log (waits m) (holds n r) h s = s
  active_comm opening sfd log (waits m) gives_up h s = s
  active_comm opening sfd log (holds m r) idle h s = s
  active_comm opening sfd log (holds m r) (waits n) h s = s
  active_comm opening sfd log (holds m r) (holds n r') h s = absurd (omega arith)
  active_comm opening sfd log (holds m r) gives_up h s = absurd (omega arith)
  active_comm opening sfd log gives_up k h s = elim s [ ]

  pub Sends-outgoing :
      (opening : List ℕ) (sfd sfd' : S) (log : List (List (List ℕ))) (job : Job)
      → socket.outgoing sfd' ≡ socket.outgoing sfd
      → Sends opening sfd log job
      → Sends opening sfd' log job
  Sends-outgoing opening sfd sfd' log idle e s = e ∙ s
  Sends-outgoing opening sfd sfd' log (waits m) e s = e ∙ s
  Sends-outgoing opening sfd sfd' log (holds m r) e (part, o, f) = (part, e ∙ o, f)
  Sends-outgoing opening sfd sfd' log gives_up e s = s

  -- Some beginning of a message is behind the whole ones.
  pub Sends-part :
      (opening : List ℕ) (sfd : S) (log : List (List (List ℕ))) (job : Job)
      → IsSound job
      → Sends opening sfd log job
      → (message : List (List ℕ)) × (part rest : List ℕ) × IsMessage message
        × (flatten message ≡ part ++ rest)
        × (socket.outgoing sfd ≡ (opening ++ bytes log) ++ part)
  unfolding flatten
  Sends-part opening sfd log idle m s =
      ([], [], [], of_refused_frame, refl, s ∙ sym (append-nil (opening ++ bytes log)))
  Sends-part opening sfd log (waits _) m s =
      ([], [], [], of_refused_frame, refl, s ∙ sym (append-nil (opening ++ bytes log)))
  Sends-part opening sfd log (holds message rest) (m, f) (part, o, e) =
      (message, part, flatten rest, m, e, o)
  Sends-part opening sfd log gives_up m s = elim s [ ]

module _ {S : Type 0} (socket : Socket S) (laws : Delivers socket) where
  pub Move-IsSound :
      {mutex mutex' : Bool} {sfd sfd' : S} {log log' : List (List (List ℕ))} {job job' : Job}
      → Move socket mutex sfd log job mutex' sfd' log' job'
      → IsSound job
      → IsSound job'
  Move-IsSound (call message m e) h = m
  Move-IsSound (lock message e f) h =
      let m : IsMessage message = rw e at h in (m, IsMessage-IsFull m)
  Move-IsSound (send message rest buf count sfd' e f) h =
      let (m, (b, r)) : IsSound (holds message (buf ∷ rest)) = rw e at h in
      (m, left-IsFull count buf rest r)
  Move-IsSound {sfd} (error message rest buf e f) h =
      let (m, (b, r)) : IsSound (holds message (buf ∷ rest)) = rw e at h in
      let (count, sfd', p, pos, le, out) = laws.send_some sfd buf b in absurd (cc)
  Move-IsSound (unlock message e) h = tt
  Move-IsSound (release e) h = tt

  -- One call of `send`, seen from what was sent and what is left.
  send-Sends :
      (opening : List ℕ) (sfd sfd' : S) (log : List (List (List ℕ))) (message rest : List (List ℕ))
      (buf : List ℕ) (count : ℕ)
      → socket.send sfd buf ≡ some (count, sfd')
      → 0 < length buf
      → Sends socket opening sfd log (holds message (buf ∷ rest))
      → Sends socket opening sfd' log (holds message (left count buf rest))
  unfolding flatten
  send-Sends opening sfd sfd' log message rest buf count f b (part, o, m) =
      let (n, t, p, pos, le, out) = laws.send_some sfd buf b in
      let same : n ≡ count = cc in
      let same' : t ≡ sfd' = cc in
      let h : count ≤ length buf = omega arith in
      let all = opening ++ bytes log in
      let out' : socket.outgoing sfd' ≡ socket.outgoing sfd ++ take count buf =
        rw same' at (rw same at out) in
      (
        part ++ take count buf,
        out' ∙ ap (λ t. t ++ take count buf) o ∙ append_assoc all part (take count buf),
        m
            ∙ ap (λ t. part ++ t) (sym (left-flatten count buf rest h))
            ∙ sym (append_assoc part (take count buf) (flatten (left count buf rest))),
      )

  pub Move-Sends :
      (opening : List ℕ) (k : Job) {mutex mutex' : Bool} {sfd sfd' : S}
      {log log' : List (List (List ℕ))} {job job' : Job}
      → Move socket mutex sfd log job mutex' sfd' log' job'
      → job_holds job + job_holds k ≤ taken mutex
      → IsSound job
      → Sends socket opening sfd log (active job k)
      → Sends socket opening sfd' log' (active job' k)
  unfolding flatten
  Move-Sends opening k (call message m e) one h s = rw e at s
  Move-Sends opening k {mutex} {sfd} {log} (lock message e f) one h s =
      let s' : Sends socket opening sfd log k = rw e at s in
      let quiet : job_holds k ≡ 0 = ground arith in
      (
        [],
        quiet-Sends socket opening sfd log k quiet s' ∙ sym (append-nil (opening ++ bytes log)),
        refl,
      )
  Move-Sends opening k {sfd} {log} (send message rest buf count sfd' e f) one h s =
      let (m, (b, r)) : IsSound (holds message (buf ∷ rest)) = rw e at h in
      send-Sends opening sfd sfd' log message rest buf count f b (rw e at s)
  Move-Sends opening k {mutex} {sfd} {log} (error message rest buf e f) one h s =
      let never : ⊥ = Move-IsSound {mutex = mutex} {log = log} (error message rest buf e f) h in
      elim never [ ]
  Move-Sends opening k {mutex} {sfd} {log} (unlock message e) one h s =
      let (part, o, m) : Sends socket opening sfd log (holds message []) = rw e at s in
      let one' : 1 + job_holds k ≤ taken mutex = rw e at one in
      Sends-quiet socket opening sfd (log ++ message ∷ []) k (ground arith) (
        o
        ∙ ap (λ t. (opening ++ bytes log) ++ t) (sym (append-nil part) ∙ sym m)
        ∙ append_assoc opening (bytes log) (flatten message)
        ∙ ap (λ t. opening ++ t) (sym (bytes-append log message)))
  Move-Sends opening k (release e) one h s = absurd (rw e at h)

  All-snoc :
      (log : List (List (List ℕ))) (message : List (List ℕ))
      → All IsMessage log
      → IsMessage message
      → All IsMessage (log ++ message ∷ [])
  All-snoc [] message h m = (m, tt)
  All-snoc (x ∷ log) message h m = (h.0, All-snoc log message h.1 m)

  pub Move-log :
      {mutex mutex' : Bool} {sfd sfd' : S} {log log' : List (List (List ℕ))} {job job' : Job}
      → Move socket mutex sfd log job mutex' sfd' log' job'
      → IsSound job
      → All IsMessage log
      → All IsMessage log'
  Move-log (call message m e) h all = all
  Move-log (lock message e f) h all = all
  Move-log (send message rest buf count sfd' e f) h all = all
  Move-log (error message rest buf e f) h all = all
  Move-log {log} (unlock message e) h all =
      let (m, r) : IsSound (holds message []) = rw e at h in All-snoc log message all m
  Move-log (release e) h all = all
