-- ===== src/Base/Bits.antt =====
-- Exclusive or with a mask of ones, and the complement of a 16-bit word.
use Prim.Native.Nat.{
  ℕ, zero, suc, ◌+◌, ◌-◌, ◌*◌, ◌/◌, ◌%◌, ◌≤◌, ◌<◌, bit_xor, bit_xor-bitwise, digits, differ,
}
use mathlib.Core.Path.{◌≡◌, refl, ◌∙◌}
use native.Mathlib.Omega.{arith}

abbrev xor_digits : ℕ → ℕ → ℕ → ℕ
xor_digits n a b = digits (λ b. b) differ n a b

xor_digits_fuel : (n m a b : ℕ) → a ≤ n → a ≤ m → xor_digits n a b ≡ xor_digits m a b
xor_digits_fuel zero zero a b p q = refl
xor_digits_fuel zero (suc m) zero b p q = refl
xor_digits_fuel zero (suc m) (suc a) b p q = absurd (omega arith)
xor_digits_fuel (suc n) zero zero b p q = refl
xor_digits_fuel (suc n) zero (suc a) b p q = absurd (omega arith)
xor_digits_fuel (suc n) (suc m) zero b p q = refl
xor_digits_fuel (suc n) (suc m) (suc a) b p q =
    omega (arith, xor_digits_fuel n m (suc a / 2) (b / 2) (omega arith) (omega arith))

zero-bit_xor : (b : ℕ) → bit_xor 0 b ≡ b
zero-bit_xor b = bit_xor-bitwise 0 b

-- The lowest digit when the mask ends in a one.
differ-one : (d : ℕ) → d < 2 → differ d 1 ≡ 1 - d
differ-one zero h = refl
differ-one (suc zero) h = refl
differ-one (suc (suc d)) h = absurd (omega arith)

-- Flipping one digit after the other.
abbrev flip : ℕ → ℕ → ℕ
flip zero x = x
flip (suc k) x = flip k (x / 2) * 2 + (1 - x % 2)

abbrev pow2 : ℕ → ℕ
pow2 zero = 1
pow2 (suc k) = 2 * pow2 k

abbrev ones : ℕ → ℕ
ones zero = 0
ones (suc k) = 2 * ones k + 1

xor_step_suc :
    (a b : ℕ)
    → xor_digits a (suc a / 2) ((2 * b + 1) / 2) * 2 + differ (suc a % 2) ((2 * b + 1) % 2)
      ≡ bit_xor (suc a / 2) b * 2 + (1 - suc a % 2)
xor_step_suc a b =
    let half : (2 * b + 1) / 2 ≡ b = omega arith in
    let odd : (2 * b + 1) % 2 ≡ 1 = omega arith in
    rw (half, odd)
      (omega (
        arith,
        bit_xor-bitwise (suc a / 2) b,
        xor_digits_fuel a (suc a / 2) (suc a / 2) b (omega arith) (omega arith),
        differ-one (suc a % 2) (omega arith),
      ))

xor_step : (a b : ℕ) → bit_xor a (2 * b + 1) ≡ bit_xor (a / 2) b * 2 + (1 - a % 2)
xor_step zero b = omega (arith, zero-bit_xor (2 * b + 1), zero-bit_xor b)
xor_step (suc a) b = bit_xor-bitwise (suc a) (2 * b + 1) ∙ xor_step_suc a b

differ-zero : (d : ℕ) → differ d 0 ≡ d
differ-zero zero = refl
differ-zero (suc d) = refl

xor_digits-zero : (n a : ℕ) → a ≤ n → xor_digits n a 0 ≡ a
xor_digits-zero zero zero h = refl
xor_digits-zero zero (suc a) h = absurd (omega arith)
xor_digits-zero (suc n) zero h = refl
xor_digits-zero (suc n) (suc a) h =
    omega (arith, xor_digits-zero n (suc a / 2) (omega arith), differ-zero (suc a % 2))

xor-zero : (a : ℕ) → bit_xor a 0 ≡ a
xor-zero a = bit_xor-bitwise a 0 ∙ xor_digits-zero a a (omega arith)

xor_ones : (k x : ℕ) → bit_xor x (ones k) ≡ flip k x
xor_ones zero x = xor-zero x
xor_ones (suc k) x = omega (arith, xor_step x (ones k), xor_ones k (x / 2))

flip_lem : (k hi lo : ℕ) → lo < pow2 k → flip k (hi * pow2 k + lo) + lo + 1 ≡ hi * pow2 k + pow2 k
flip_lem zero hi lo h = omega arith
flip_lem (suc k) hi lo h =
    let half : (hi * (2 * pow2 k) + lo) / 2 ≡ hi * pow2 k + lo / 2 = omega arith in
    rw half (omega (arith, flip_lem k hi (lo / 2) (omega arith)))

-- `(uint16_t)(x ^ 0xFFFF)` takes the low 16 bits of `x` from 0xFFFF.
pub xor_low16 : (x : ℕ) → bit_xor x 0xffff % 0x1_0000 ≡ 0xffff - x % 0x1_0000
xor_low16 x =
    let split : x / 0x1_0000 * 0x1_0000 + x % 0x1_0000 ≡ x = omega arith in
    omega
      (arith, xor_ones 16 x, rw split at (flip_lem 16 (x / 0x1_0000) (x % 0x1_0000) (omega arith)))
