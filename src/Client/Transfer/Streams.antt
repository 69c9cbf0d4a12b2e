-- ===== src/Client/Transfer/Streams.antt =====
-- The two directions of a socket do not touch each other.
use resilient_overlay_networ.Base.{
  ℕ, zero, suc, ◌-◌, ◌≡◌, ◌∙◌, List, some, ltb, length, drop, inl, inr, Bool-cases, Option-cases,
}
use resilient_overlay_networ.Client.Transfer.{
  Socket, Received, received, failed, running, transmitted, behind, receive, transmit,
}

pub record Separate {S : Type 0} (socket : Socket S) : Type 0 where
  pub recv_keeps :
      (s s' : S) (size : ℕ) (bytes : List ℕ)
      → socket.recv s size ≡ some (bytes, s')
      → socket.outgoing s' ≡ socket.outgoing s
  pub send_keeps :
      (s s' : S) (buf : List ℕ) (count : ℕ)
      → socket.send s buf ≡ some (count, s')
      → socket.incoming s' ≡ socket.incoming s

module _ {S : Type 0} where
  behind_inv :
      (bytes all : List ℕ) (r : Received S) (s : S)
      → behind bytes r ≡ received all s
      → (rest : List ℕ) × (r ≡ received rest s)
  unfolding behind
  behind_inv bytes all (received rest s') s e = (rest, cc)
  behind_inv bytes all failed s e = cc
  behind_inv bytes all running s e = cc

module _ {S : Type 0} (socket : Socket S) (laws : Separate socket) where
  pub receive-outgoing :
      (n size : ℕ) (bytes : List ℕ) (s s' : S)
      → receive socket n size s ≡ received bytes s'
      → socket.outgoing s' ≡ socket.outgoing s
  unfolding receive
  receive-outgoing zero size bytes s s' e = cc
  receive-outgoing (suc n) size bytes s s' e = elim (Option-cases (socket.recv s size)) [
    | inl none_at ↦ absurd (cc (rw (receive, none_at) at e))
    | inr ((piece, s1), at) ↦ elim (Bool-cases (ltb (length piece) size)) [
      | inl more ↦
          let (rest, e') = behind_inv piece bytes _ s' (rw (receive, at, more) at e) in
          receive-outgoing n (size - length piece) rest s1 s' e'
          ∙ laws.recv_keeps s s1 size piece at
      | inr full ↦
          let e' : received piece s1 ≡ received bytes s' = rw (receive, at, full) at e in
          let same : s' ≡ s1 = cc in rw same (laws.recv_keeps s s1 size piece at)
    ]
  ]

  pub transmit-incoming :
      (n : ℕ) (buf : List ℕ) (s s' : S)
      → transmit socket n buf s ≡ transmitted s'
      → socket.incoming s' ≡ socket.incoming s
  unfolding transmit
  transmit-incoming zero buf s s' e = cc
  transmit-incoming (suc n) buf s s' e = elim (Option-cases (socket.send s buf)) [
    | inl none_at ↦ absurd (cc (rw (transmit, none_at) at e))
    | inr ((count, s1), at) ↦ elim (Bool-cases (ltb count (length buf))) [
      | inl more ↦
          transmit-incoming n (drop count buf) s1 s' (rw (transmit, at, more) at e)
          ∙ laws.send_keeps s s1 buf count at
      | inr full ↦
          let e' : transmitted s1 ≡ transmitted s' = rw (transmit, at, full) at e in
          let same : s' ≡ s1 = cc in rw same (laws.send_keeps s s1 buf count at)
    ]
  ]
