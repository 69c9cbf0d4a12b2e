-- ===== src/Address/Print.antt =====
-- `ipUint_into_str` writes dotted-quad text, but leaves out what stands above the highest byte that is
-- not zero.
use resilient_overlay_networ.Base.{
  ℕ, zero, suc, ◌/◌, ◌%◌, ◌^◌, ◌≤◌, ◌<◌, ◌≡◌, ◌≢◌, refl, sym, ap, ◌∙◌, List, [], ◌∷◌, Option, none,
  some, arith, ◌==◌, ne→==, ==→eq, Bool-cases, inl, inr, set,
}
use resilient_overlay_networ.Address.Parse.{decimal, quad, part_text, ip_into_uint-parts}
use resilient_overlay_networ.Address.{
  ip_into_uint, ip_uint_into_str, part_loop, fill_parts, join_parts,
}

-- The digits that the inner loop writes for an octet.
part_loop-decimal : (b : ℕ) → b < 256 → part_loop 10 b [] ≡ some (decimal b)
unfolding part_loop
part_loop-decimal b h = ground arith

fill_zero : (n : ℕ) (ip_str : List (List ℕ)) → fill_parts n 0 ip_str ≡ some ip_str
unfolding fill_parts
fill_zero zero ip_str = refl
fill_zero (suc n) ip_str = refl

fill_step :
    (i y : ℕ) (ip_str : List (List ℕ))
    → set ip_str i [] ≡ ip_str
    → fill_parts (suc i) y ip_str ≡ fill_parts i (y / 256) (set ip_str i (part_text y))
unfolding fill_parts
fill_step i y ip_str blank = elim (Bool-cases (y == 0)) [
  | inl e ↦ rw (==→eq y 0 e, blank) (sym (fill_zero i ip_str))
  | inr e ↦ rw (e, fill_parts, part_loop-decimal (y % 256) (omega arith))
]

fill_four :
    (x : ℕ)
    → x < 2 ^ 32
    → fill_parts 4 x ([] ∷ [] ∷ [] ∷ [] ∷ [])
      ≡ some (
          part_text (x / 2 ^ 24)
          ∷ part_text (x / 2 ^ 16)
          ∷ part_text (x / 2 ^ 8)
          ∷ part_text x
          ∷ [])
fill_four x h =
    let e₁ : x / 256 / 256 ≡ x / 2 ^ 16 = omega arith in
    let e₂ : x / 2 ^ 16 / 256 ≡ x / 2 ^ 24 = omega arith in
    let e₃ : x / 2 ^ 24 / 256 ≡ 0 = omega arith in
    fill_step 3 x _ refl
    ∙ fill_step 2 (x / 256) _ refl
    ∙ fill_step 1 (x / 256 / 256) _ refl
    ∙ fill_step 0 (x / 256 / 256 / 256) _ refl
    ∙ rw (e₁, e₂, e₃) (fill_zero 0 _)

-- For every uint32_t the loops end within the four parts, and a part is the decimal text of its byte,
-- or empty when that byte and all the higher ones are zero.
pub ip_uint_into_str_lem :
    (x : ℕ)
    → x < 2 ^ 32
    → ip_uint_into_str x
      ≡ some (
          quad
            (part_text (x / 2 ^ 24))
            (part_text (x / 2 ^ 16))
            (part_text (x / 2 ^ 8))
            (part_text x))
unfolding ip_uint_into_str join_parts
ip_uint_into_str_lem x h = rw (fill_four x h)

part_text-decimal : (y : ℕ) → 0 < y → part_text y ≡ decimal (y % 256)
part_text-decimal y h = rw (ne→== y 0 (omega arith))

-- The canonical dotted-quad text of an address.
abbrev pub dotted : ℕ → List ℕ
dotted x =
    quad (decimal (x / 2 ^ 24 % 256)) (decimal (x / 2 ^ 16 % 256)) (decimal (x / 2 ^ 8 % 256))
      (decimal (x % 256))

-- A uint32_t whose highest byte is not zero is printed as its canonical dotted-quad text.
pub ip_uint_into_str-dotted :
    (x : ℕ) → 2 ^ 24 ≤ x → x < 2 ^ 32 → ip_uint_into_str x ≡ some (dotted x)
ip_uint_into_str-dotted x lo hi =
    ip_uint_into_str_lem x hi
    ∙ rw (
      part_text-decimal (x / 2 ^ 24) (omega arith),
      part_text-decimal (x / 2 ^ 16) (omega arith),
      part_text-decimal (x / 2 ^ 8) (omega arith),
      part_text-decimal x (omega arith),
    )

-- Printing any uint32_t ends, writes inside the four parts, and gives a text that `ip_into_uint`
-- reads back as the same address.
pub ip_into_uint-ip_uint_into_str :
    (x : ℕ)
    → x < 2 ^ 32
    → (text : List ℕ) × (ip_uint_into_str x ≡ some text) × (ip_into_uint text ≡ x)
ip_into_uint-ip_uint_into_str x h = (
  quad (part_text (x / 2 ^ 24)) (part_text (x / 2 ^ 16)) (part_text (x / 2 ^ 8)) (part_text x),
  ip_uint_into_str_lem x h,
  ip_into_uint-parts (x / 2 ^ 24) (x / 2 ^ 16) (x / 2 ^ 8) x ∙ omega arith,
)

abbrev first_char : Option (List ℕ) → ℕ
first_char none = 0
first_char (some []) = 0
first_char (some (c ∷ cs)) = c

-- A uint32_t whose highest byte is zero is not printed as its canonical dotted-quad text.
pub ip_uint_into_str_low : (x : ℕ) → x < 2 ^ 24 → ip_uint_into_str x ≢ some (dotted x)
ip_uint_into_str_low x h e =
    let high : x / 2 ^ 24 ≡ 0 = omega arith in
    let printed = ip_uint_into_str_lem x (omega arith) in
    let same = rw high at (sym printed ∙ e) in omega (arith, ap first_char same)
