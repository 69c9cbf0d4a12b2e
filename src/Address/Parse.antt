-- ===== src/Address/Parse.antt =====
-- `ip_into_uint` reads canonical dotted-quad text.
use resilient_overlay_networ.Base.{
  ℕ, ◌+◌, ◌*◌, ◌/◌, ◌%◌, ◌^◌, ◌<◌, ◌≡◌, refl, ap, ◌∙◌, List, [], ◌∷◌, ◌++◌, arith, ltb, ◌==◌,
  if◌then◌else◌, ne→==, ==→eq, lt→ltb, ltb→lt, Bool-cases, inl, inr,
}
use mathlib.Core.List.{append-nil}
use resilient_overlay_networ.Address.{ip_into_uint, ip_into_uint_loop, char_digit}

-- The decimal text of an octet.
abbrev pub decimal : ℕ → List ℕ
decimal b =
    if ltb b 10
    then (b'0' + b) ∷ []
    else if ltb b 100
    then (b'0' + b / 10) ∷ (b'0' + b % 10) ∷ []
    else (b'0' + b / 100) ∷ (b'0' + b / 10 % 10) ∷ (b'0' + b % 10) ∷ []

abbrev pub quad : List ℕ → List ℕ → List ℕ → List ℕ → List ℕ
quad a b c d = a ++ b'.' ∷ (b ++ b'.' ∷ (c ++ b'.' ∷ d))

char_digit_lem : (d : ℕ) → d < 10 → char_digit (b'0' + d) ≡ d
unfolding char_digit
char_digit_lem d h = rw (lt→ltb (b'0' + d) 128 (omega arith)) (omega arith)

loop_digit :
    (d : ℕ) (cs : List ℕ) (sum part : ℕ)
    → d < 10
    → part < 1000
    → ip_into_uint_loop ((b'0' + d) ∷ cs) sum part ≡ ip_into_uint_loop cs sum (10 * part + d)
unfolding ip_into_uint_loop
loop_digit d cs sum part h p =
    rw (ne→== (b'0' + d) b'.' (omega arith), ip_into_uint_loop)
      (ap (ip_into_uint_loop cs sum) (omega (arith, char_digit_lem d h)))

-- The digits of an octet, read from the start of a part.
loop_decimal :
    (b : ℕ) (cs : List ℕ) (sum : ℕ)
    → b < 256
    → ip_into_uint_loop (decimal b ++ cs) sum 0 ≡ ip_into_uint_loop cs sum b
loop_decimal b cs sum h = elim (Bool-cases (ltb b 10)) [
  | inl e ↦ rw e (
      loop_digit b cs sum 0 (ltb→lt b 10 e) (omega arith)
      ∙ ap (ip_into_uint_loop cs sum) (omega arith))
  | inr e ↦ elim (Bool-cases (ltb b 100)) [
    | inl e' ↦
        rw (e, e')
          (loop_digit (b / 10) _ sum 0 (omega (arith, ltb→lt b 100 e')) (omega arith)
            ∙ loop_digit (b % 10) cs sum _ (omega arith) (omega (arith, ltb→lt b 100 e'))
            ∙ ap (ip_into_uint_loop cs sum) (omega arith))
    | inr e' ↦
        rw (e, e')
          (loop_digit (b / 100) _ sum 0 (omega arith) (omega arith)
            ∙ loop_digit (b / 10 % 10) _ sum _ (omega arith) (omega arith)
            ∙ loop_digit (b % 10) cs sum _ (omega arith) (omega arith)
            ∙ ap (ip_into_uint_loop cs sum) (omega arith))
  ]
]

-- What a part of a text may be: the digits of an octet, or nothing at all, which is read as 0.
abbrev pub part_text : ℕ → List ℕ
part_text y = if y == 0 then [] else decimal (y % 256)

loop_part :
    (y : ℕ) (cs : List ℕ) (sum : ℕ)
    → ip_into_uint_loop (part_text y ++ cs) sum 0 ≡ ip_into_uint_loop cs sum (y % 256)
loop_part y cs sum = elim (Bool-cases (y == 0)) [
  | inl e ↦ rw e (ap (ip_into_uint_loop cs sum) (omega (arith, ==→eq y 0 e)))
  | inr e ↦ rw e (loop_decimal (y % 256) cs sum (omega arith))
]

loop_dot :
    (cs : List ℕ) (sum part : ℕ)
    → ip_into_uint_loop (b'.' ∷ cs) sum part
      ≡ ip_into_uint_loop cs ((sum + part) % 2 ^ 32 * 256 % 2 ^ 32) 0
unfolding ip_into_uint_loop
loop_dot cs sum part = refl

loop_end : (sum part : ℕ) → ip_into_uint_loop [] sum part ≡ (sum + part) % 2 ^ 32
unfolding ip_into_uint_loop
loop_end sum part = refl

-- A text that is read as one part, of the value `i`.
abbrev Reads : List ℕ → ℕ → Type 0
Reads a i = (cs : List ℕ) (sum : ℕ) → ip_into_uint_loop (a ++ cs) sum 0 ≡ ip_into_uint_loop cs sum i

quad_lem :
    (a b c d : List ℕ) (i j k l : ℕ)
    → Reads a i
    → Reads b j
    → Reads c k
    → Reads d l
    → i < 256
    → j < 256
    → k < 256
    → l < 256
    → ip_into_uint (quad a b c d) ≡ i * 2 ^ 24 + j * 2 ^ 16 + k * 2 ^ 8 + l
unfolding ip_into_uint
quad_lem a b c d i j k l ha hb hc hd bi bj bk bl =
    let last = λ (sum : ℕ). rw (append-nil d) at (hd [] sum) in
    ha _ 0
    ∙ loop_dot _ 0 i
    ∙ hb _ _
    ∙ loop_dot _ _ j
    ∙ hc _ _
    ∙ loop_dot _ _ k
    ∙ last _
    ∙ loop_end _ l
    ∙ omega arith

-- `ip_into_uint` gives the number of every address that is written as four decimal octets, without
-- leading zeros, between dots: the first octet is the highest byte.
pub ip_into_uint-quad :
    (a b c d : ℕ)
    → a < 256
    → b < 256
    → c < 256
    → d < 256
    → ip_into_uint (quad (decimal a) (decimal b) (decimal c) (decimal d))
      ≡ a * 2 ^ 24 + b * 2 ^ 16 + c * 2 ^ 8 + d
ip_into_uint-quad a b c d ha hb hc hd =
    quad_lem (decimal a) (decimal b) (decimal c) (decimal d) a b c d
      (λ cs sum. loop_decimal a cs sum ha) (λ cs sum. loop_decimal b cs sum hb)
      (λ cs sum. loop_decimal c cs sum hc) (λ cs sum. loop_decimal d cs sum hd) ha hb hc hd

pub ip_into_uint-parts :
    (a b c d : ℕ)
    → ip_into_uint (quad (part_text a) (part_text b) (part_text c) (part_text d))
      ≡ a % 256 * 2 ^ 24 + b % 256 * 2 ^ 16 + c % 256 * 2 ^ 8 + d % 256
ip_into_uint-parts a b c d =
    quad_lem (part_text a) (part_text b) (part_text c) (part_text d) (a % 256) (b % 256) (c % 256)
      (d % 256) (loop_part a) (loop_part b) (loop_part c) (loop_part d) (omega arith) (omega arith)
      (omega arith) (omega arith)
