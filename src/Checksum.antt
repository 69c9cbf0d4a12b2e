-- ===== src/Checksum.antt =====
-- The Internet checksums of user/sm.cpp: `check_sum_ip` and `check_sum_icmp`. Memory is the list of
-- the bytes from a pointer on; a 16-bit read takes the low byte first, as on the machines that the
-- program is built for, and a read past the end of the list gives `none`.
pub mod Verify
mod Tests
use Prim.Native.Nat.{bit_xor}
use resilient_overlay_networ.Base.{
  ℕ, zero, suc, ◌+◌, ◌-◌, ◌*◌, ◌/◌, ◌%◌, ◌^◌, List, [], ◌∷◌, Option, none, some, ◌>>=◌,
}

-- `for (i = 0; i < n; i++) sum += ip_temp[i];` on a uint32_t.
unfoldable pub sum_words : ℕ → List ℕ → ℕ → Option ℕ
sum_words zero m sum = some sum
sum_words (suc n) [] sum = none
sum_words (suc n) (lo ∷ []) sum = none
sum_words (suc n) (lo ∷ hi ∷ m) sum = sum_words n m ((sum + (lo + 256 * hi)) % 2 ^ 32)

-- One round of carries, then the complement, cut to 16 bits.
unfoldable pub fold_ip : ℕ → ℕ
fold_ip sum =
    let reminder = sum % 2 ^ 16 in
    let q = sum / 2 ^ 16 % 2 ^ 16 in bit_xor (q + reminder) 0xffff % 2 ^ 16

unfoldable pub check_sum_ip : List ℕ → ℕ → Option ℕ
check_sum_ip ip_temp header_length = do
  sum ← sum_words (header_length * 2) ip_temp 0
  some (fold_ip sum)

-- `nbytes` bytes, two at a time; a last single byte counts as a low byte.
unfoldable pub sum_bytes : ℕ → List ℕ → ℕ → Option ℕ
sum_bytes zero m sum = some sum
sum_bytes (suc zero) [] sum = none
sum_bytes (suc zero) (b ∷ m) sum = some ((sum + b) % 2 ^ 32)
sum_bytes (suc (suc n)) [] sum = none
sum_bytes (suc (suc n)) (lo ∷ []) sum = none
sum_bytes (suc (suc n)) (lo ∷ hi ∷ m) sum = sum_bytes n m ((sum + (lo + 256 * hi)) % 2 ^ 32)

-- Two rounds of carries; `~sum` on a uint32_t, cut to 16 bits.
unfoldable pub fold_icmp : ℕ → ℕ
fold_icmp sum =
    let once = (sum / 2 ^ 16 + sum % 2 ^ 16) % 2 ^ 32 in
    let twice = (once + once / 2 ^ 16) % 2 ^ 32 in (2 ^ 32 - 1 - twice) % 2 ^ 16

unfoldable pub check_sum_icmp : List ℕ → Option ℕ
check_sum_icmp temp = do sum ← sum_bytes 12 temp 0; some (fold_icmp sum)
