-- ===== src/Client/Slow.antt =====
-- A socket that moves one byte in each call, for the tests.
use resilient_overlay_networ.Base.{
  ℕ, zero, suc, ◌<◌, ◌≤◌, ◌≡◌, refl, ap, List, [], ◌∷◌, ◌++◌, Option, some, length, take, arith,
}
use resilient_overlay_networ.Client.Transfer.{Socket}
use resilient_overlay_networ.Client.Transfer.Complete.{Delivers}
use resilient_overlay_networ.Client.Transfer.Streams.{Separate}

-- What is still to be read, and what was sent.
abbrev pub Line : Type 0
Line = List ℕ × List ℕ

abbrev slow_recv : Line → ℕ → Option (List ℕ × Line)
slow_recv ([], out) size = some ([], ([], out))
slow_recv (b ∷ rest, out) size = some (b ∷ [], (rest, out))

abbrev slow_send : Line → List ℕ → Option (ℕ × Line)
slow_send (rest, out) [] = some (0, (rest, out))
slow_send (rest, out) (b ∷ buf) = some (1, (rest, out ++ b ∷ []))

abbrev pub slow : Socket Line
slow = record {
  recv = slow_recv;
  send = slow_send;
  incoming = λ (rest, out). rest;
  outgoing = λ (rest, out). out;
}

slow-recv_some :
    (s : Line) (size : ℕ)
    → 0 < size
    → 0 < length (slow.incoming s)
    → (b : ℕ) × (bytes : List ℕ) × (s' : Line) × (slow.recv s size ≡ some (b ∷ bytes, s'))
      × (length bytes < size)
      × (slow.incoming s ≡ b ∷ bytes ++ slow.incoming s')
slow-recv_some ([], out) size p q = absurd (omega arith)
slow-recv_some (b ∷ rest, out) size p q = (b, [], (rest, out), refl, p, refl)

slow-send_some :
    (s : Line) (buf : List ℕ)
    → 0 < length buf
    → (count : ℕ) × (s' : Line) × (slow.send s buf ≡ some (count, s'))
      × (0 < count)
      × (count ≤ length buf)
      × (slow.outgoing s' ≡ slow.outgoing s ++ take count buf)
slow-send_some (rest, out) [] p = absurd (omega arith)
slow-send_some (rest, out) (b ∷ buf) p =
    (1, (rest, out ++ b ∷ []), refl, omega arith, omega arith, refl)

pub slow-Delivers : Delivers slow
slow-Delivers = record { recv_some = slow-recv_some; send_some = slow-send_some }

slow_recv-outgoing :
    (s s' : Line) (size : ℕ) (bytes : List ℕ)
    → slow.recv s size ≡ some (bytes, s')
    → slow.outgoing s' ≡ slow.outgoing s
slow_recv-outgoing ([], out) (rest', out') size bytes e = cc
slow_recv-outgoing (b ∷ rest, out) (rest', out') size bytes e = cc

slow_send-incoming :
    (s s' : Line) (buf : List ℕ) (count : ℕ)
    → slow.send s buf ≡ some (count, s')
    → slow.incoming s' ≡ slow.incoming s
slow_send-incoming (rest, out) (rest', out') [] count e = cc
slow_send-incoming (rest, out) (rest', out') (b ∷ buf) count e = cc

pub slow-Separate : Separate slow
slow-Separate = record { recv_keeps = slow_recv-outgoing; send_keeps = slow_send-incoming }

-- A buffer of zeros.
unfoldable pub zeros : ℕ → List ℕ
zeros zero = []
zeros (suc n) = 0 ∷ zeros n

pub length-zeros : (n : ℕ) → length (zeros n) ≡ n
unfolding zeros
length-zeros zero = refl
length-zeros (suc n) = ap suc (length-zeros n)
