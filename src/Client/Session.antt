-- ===== src/Client/Session.antt =====
-- The state of base/cf.cpp in the negotiations: the socket and the shared `buffer`. The number `n`
-- bounds the calls of the system's `send` or `recv` for one transfer.
pub mod Steps
use resilient_overlay_networ.Base.{
  ℕ, ◌+◌, ◌%◌, ◌^◌, List, [], ◌∷◌, ◌++◌, Option, none, some, ltb, if◌then◌else◌, length, take, drop,
}
use resilient_overlay_networ.Wire.Order.{htons, htonl, ntohl, ntohs, le16, le32, read16, read32}
use resilient_overlay_networ.Client.Transfer.{
  Socket, Received, received, failed, running, receive, Transmitted, transmitted, broken, sending,
  transmit,
}

pub record Session (S : Type 0) : Type 0 where
  pub sfd : S
  pub buffer : List ℕ

-- How a function ends: it returns `true` with what it has made, it returns `false` with the error
-- code that it prints (0 where it prints none), it ends the program, it reads or writes outside of the
-- buffer or through a null pointer, or it is still in a transfer.
pub data Outcome (A : Type 0) : Type 0 where
  done : A → Outcome A
  refused : ℕ → Outcome A
  exited : Outcome A
  fault : Outcome A
  waiting : Outcome A

infixl 5 ◌>>=◌
abbrev pub ◌>>=◌ : {A B : Type 0} → Outcome A → (A → Outcome B) → Outcome B
done a >>= f = f a
refused code >>= f = refused code
exited >>= f = exited
fault >>= f = fault
waiting >>= f = waiting

abbrev pub or_fault : {A : Type 0} → Option A → Outcome A
or_fault none = fault
or_fault (some a) = done a

-- Bytes written over those at a position.
abbrev pub splice : ℕ → List ℕ → List ℕ → List ℕ
splice pos bytes m = take pos m ++ (bytes ++ drop (pos + length bytes) m)

module _ {S : Type 0} where
  unfoldable pub write : ℕ → List ℕ → Session S → Outcome (Session S)
  write pos bytes s =
      if ltb (length s.buffer) (pos + length bytes)
      then fault
      else done (record s { buffer = splice pos bytes s.buffer })

  -- A text with its size in front, as a uint16_t, and a NUL behind; and the position behind that.
  unfoldable pub write_text : ℕ → List ℕ → Session S → Outcome (ℕ × Session S)
  write_text pos text s = do
    let size = (length text + 1) % 2 ^ 16
    s1 ← write pos (le16 (htons size) []) s
    s2 ← write (pos + 2) (text ++ 0 ∷ []) s1
    done (pos + 2 + size, s2)

  unfoldable pub word16 : ℕ → Session S → Outcome ℕ
  word16 pos s = or_fault (read16 s.buffer pos) >>= λ v. done (ntohs v)

  unfoldable pub word32 : ℕ → Session S → Outcome ℕ
  word32 pos s = or_fault (read32 s.buffer pos) >>= λ v. done (ntohl v)

  -- `sendOrReceive` on `buffer`, with a place for its result.
  unfoldable pub on_sent : ℕ → Session S → Transmitted S → Outcome (Session S)
  on_sent code s (transmitted sfd) = done (record s { sfd = sfd })
  on_sent code s broken = refused code
  on_sent code s sending = waiting

  unfoldable pub on_received : ℕ → ℕ → Session S → Received S → Outcome (Session S)
  on_received code size s (received bytes sfd) =
      done (record { sfd = sfd; buffer = bytes ++ drop size s.buffer })
  on_received code size s failed = refused code
  on_received code size s running = waiting

  unfoldable pub send_buffer : Socket S → ℕ → ℕ → ℕ → Session S → Outcome (Session S)
  unfolding on_sent
  send_buffer socket n code size s =
      if ltb (length s.buffer) size
      then fault
      else on_sent code s (transmit socket n (take size s.buffer) s.sfd)

  unfoldable pub receive_buffer : Socket S → ℕ → ℕ → ℕ → Session S → Outcome (Session S)
  unfolding on_received
  receive_buffer socket n code size s =
      if ltb (length s.buffer) size
      then fault
      else on_received code size s (receive socket n size s.sfd)

  -- A request of one word, and the first `size` bytes of the answer.
  unfoldable pub ask : Socket S → ℕ → ℕ → ℕ → ℕ → ℕ → Session S → Outcome (Session S)
  ask socket n request send_code code size s = do
    s1 ← write 0 (le32 (htonl request) []) s
    s2 ← send_buffer socket n send_code 4 s1
    receive_buffer socket n code size s2
