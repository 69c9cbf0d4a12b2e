-- ===== src/Client/Transfer.antt =====
-- `sendOrReceive` of base/cf.cpp: the loop around the system's `send` and `recv`, which are
-- parameters. Each call either fails or moves some of the bytes.
pub mod Complete
pub mod Streams
use resilient_overlay_networ.Base.{
  ℕ, zero, suc, ◌-◌, List, ◌++◌, Option, none, some, ltb, length, drop, true, false,
}

-- A connected socket: `recv` is given the room in the buffer, `send` the bytes to be sent, and gives
-- how many of them it took. What is still to be read and what has been sent are for the proofs only.
pub record Socket (S : Type 0) : Type 0 where
  pub recv : S → ℕ → Option (List ℕ × S)
  pub send : S → List ℕ → Option (ℕ × S)
  pub incoming : S → List ℕ
  pub outgoing : S → List ℕ

-- How a call ends: all bytes moved, an error of the system, or still running.
pub data Received (S : Type 0) : Type 0 where
  received : List ℕ → S → Received S
  failed : Received S
  running : Received S

pub data Transmitted (S : Type 0) : Type 0 where
  transmitted : S → Transmitted S
  broken : Transmitted S
  sending : Transmitted S

module _ {S : Type 0} where
  unfoldable pub behind : List ℕ → Received S → Received S
  behind bytes (received rest s) = received (bytes ++ rest) s
  behind bytes failed = failed
  behind bytes running = running

  -- `do ... while (count < size)`, where `size` is what was left before this call of `recv`.
  unfoldable pub receive : Socket S → ℕ → ℕ → S → Received S
  receive socket zero size s = running
  receive socket (suc n) size s = elim (socket.recv s size) [
    | none ↦ failed
    | some (bytes, s') ↦ elim (ltb (length bytes) size) [
      | true ↦ behind bytes (receive socket n (size - length bytes) s')
      | false ↦ received bytes s'
    ]
  ]

  unfoldable pub transmit : Socket S → ℕ → List ℕ → S → Transmitted S
  transmit socket zero buf s = sending
  transmit socket (suc n) buf s = elim (socket.send s buf) [
    | none ↦ broken
    | some (count, s') ↦ elim (ltb count (length buf)) [
      | true ↦ transmit socket n (drop count buf) s'
      | false ↦ transmitted s'
    ]
  ]
