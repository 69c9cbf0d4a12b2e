-- ===== src/Client/Threads/Bytes.antt =====
-- The bytes of the messages of base/cf.cpp, and what one call of `send` leaves of them.
use resilient_overlay_networ.Base.{
  ℕ, ◌≡◌, ◌≤◌, ◌<◌, ap, sym, ◌∙◌, List, [], ◌∷◌, ◌++◌, inl, inr, ltb, length, take, drop, All,
  arith, Bool-cases, ltb→lt, length-drop, take-drop, take-length,
}
use mathlib.Core.List.{append-nil, append_assoc, flatten}
use resilient_overlay_networ.Client.Messages.{frame_header, change_message}
use resilient_overlay_networ.Client.Threads.{IsMessage, of_frame, of_refused_frame, of_change, left}

-- The bytes of the messages, in their order.
abbrev pub bytes : List (List (List ℕ)) → List ℕ
bytes [] = []
bytes (message ∷ messages) = flatten message ++ bytes messages

pub bytes-append :
    (xs : List (List (List ℕ))) (message : List (List ℕ))
    → bytes (xs ++ message ∷ []) ≡ bytes xs ++ flatten message
bytes-append [] message = append-nil (flatten message)
bytes-append (x ∷ xs) message =
    ap (λ t. flatten x ++ t) (bytes-append xs message)
    ∙ sym (append_assoc (flatten x) (bytes xs) (flatten message))

abbrev pub IsFull : List ℕ → Type 0
IsFull buf = 0 < length buf

pub IsMessage-IsFull : {message : List (List ℕ)} → IsMessage message → All IsFull message
unfolding frame_header change_message
IsMessage-IsFull (of_frame frame index lo hi) = (omega arith, (omega arith, tt))
IsMessage-IsFull of_refused_frame = tt
IsMessage-IsFull (of_change command index value) = (omega arith, tt)

-- A call of `send` moves its bytes from what is left to what is sent.
pub left-flatten :
    (count : ℕ) (buf : List ℕ) (rest : List (List ℕ))
    → count ≤ length buf
    → take count buf ++ flatten (left count buf rest) ≡ buf ++ flatten rest
unfolding left flatten
left-flatten count buf rest h = elim (Bool-cases (ltb count (length buf))) [
  | inl more ↦ rw more (
      sym (append_assoc (take count buf) (drop count buf) (flatten rest))
      ∙ ap (λ t. t ++ flatten rest) (take-drop count buf))
  | inr full ↦
      let all : count ≡ length buf = ground arith in
      rw full
        (ap (λ k. take k buf ++ flatten rest) all ∙ ap (λ t. t ++ flatten rest) (take-length buf))
]

pub left-IsFull :
    (count : ℕ) (buf : List ℕ) (rest : List (List ℕ))
    → All IsFull rest
    → All IsFull (left count buf rest)
unfolding left
left-IsFull count buf rest h = elim (Bool-cases (ltb count (length buf))) [
  | inl more ↦ rw more (omega (arith, ltb→lt count (length buf) more, length-drop count buf), h)
  | inr full ↦ rw full h
]
