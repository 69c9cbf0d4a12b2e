-- ===== src/Client/Args/Printed.antt =====
-- `parseIP` on the texts that `ipUint_into_str` of user/sm.cpp prints.
use mathlib.Core.List.{append_assoc}
use resilient_overlay_networ.Base.{
  ℕ, suc, ◌+◌, ◌*◌, ◌/◌, ◌%◌, ◌^◌, ◌<◌, ◌≤◌, ◌≡◌, ◌≢◌, refl, ap, ◌∙◌, List, [], ◌∷◌, ◌++◌, some,
  ltb, ◌==◌, inl, inr, Bool-cases, ltb→lt, ne→==, ==→eq, le→ltb, length, arith,
}
use resilient_overlay_networ.Address.Parse.{decimal, quad, part_text}
use resilient_overlay_networ.Address.{ip_uint_into_str}
use resilient_overlay_networ.Address.Print.{dotted, ip_uint_into_str_lem}
use resilient_overlay_networ.Client.Args.{split_dot, part_value, parse_part, parse_parts, parse_ip}

split_char :
    (c : ℕ) (cs part rest : List ℕ)
    → c ≢ b'.'
    → split_dot cs ≡ some (part, rest)
    → split_dot (c ∷ cs) ≡ some (c ∷ part, rest)
unfolding split_dot
split_char c cs part rest ne e = rw (split_dot, ne→== c b'.' ne, e) refl

split_empty : (rest : List ℕ) → split_dot (b'.' ∷ rest) ≡ some ([], rest)
unfolding split_dot
split_empty rest = refl

split_decimal :
    (b : ℕ) (rest : List ℕ) → split_dot (decimal b ++ b'.' ∷ rest) ≡ some (decimal b, rest)
split_decimal b rest = elim (Bool-cases (ltb b 10)) [
  | inl e ↦ rw e (split_char _ _ _ _ (λ x. absurd (omega arith)) (split_empty rest))
  | inr e ↦ elim (Bool-cases (ltb b 100)) [
    | inl e' ↦
        rw (e, e')
          (split_char _ _ _ _ (λ x. absurd (omega arith))
            (split_char _ _ _ _ (λ x. absurd (omega arith)) (split_empty rest)))
    | inr e' ↦
        rw (e, e')
          (split_char _ _ _ _ (λ x. absurd (omega arith))
            (split_char _ _ _ _ (λ x. absurd (omega arith))
              (split_char _ _ _ _ (λ x. absurd (omega arith)) (split_empty rest))))
  ]
]

part_value-digit :
    (d n : ℕ) (cs : List ℕ) → d < 10 → part_value ((b'0' + d) ∷ cs) n ≡ part_value cs (n * 10 + d)
unfolding part_value
part_value-digit d n cs h =
    rw (le→ltb (b'0' + d) b'0' (omega arith), le→ltb b'9' (b'0' + d) (omega arith))
      (ap (part_value cs) (omega arith))

part_value-end : (n : ℕ) → part_value [] n ≡ some n
unfolding part_value
part_value-end n = refl

part_value-decimal : (b : ℕ) → b < 256 → part_value (decimal b) 0 ≡ some b
part_value-decimal b h = elim (Bool-cases (ltb b 10)) [
  | inl e ↦
      rw e (part_value-digit b 0 [] (ltb→lt b 10 e) ∙ part_value-end _ ∙ ap some (omega arith))
  | inr e ↦ elim (Bool-cases (ltb b 100)) [
    | inl e' ↦
        let small = ltb→lt b 100 e' in
        rw (e, e')
          (part_value-digit (b / 10) 0 _ (omega arith)
            ∙ part_value-digit (b % 10) _ [] (omega arith)
            ∙ part_value-end _
            ∙ ap some (omega arith))
    | inr e' ↦
        rw (e, e')
          (part_value-digit (b / 100) 0 _ (omega arith)
            ∙ part_value-digit (b / 10 % 10) _ _ (omega arith)
            ∙ part_value-digit (b % 10) _ [] (omega arith)
            ∙ part_value-end _
            ∙ ap some (omega arith))
  ]
]

length-decimal : (b : ℕ) → length (decimal b) ≤ 3
length-decimal b = ground arith

parse_part_lem :
    (cs : List ℕ) (v : ℕ)
    → length cs ≤ 3
    → v < 256
    → part_value cs 0 ≡ some v
    → parse_part cs ≡ some v
unfolding parse_part
parse_part_lem cs v l h e = rw (le→ltb 3 (length cs) l, e, le→ltb 255 v (omega arith)) refl

parse_parts-decimal :
    (n b : ℕ) (rest : List ℕ) (value : ℕ)
    → b < 256
    → parse_parts (suc n) (decimal b ++ b'.' ∷ rest) value ≡ parse_parts n rest (value * 256 + b)
unfolding parse_parts
parse_parts-decimal n b rest value h =
    rw
      (
        split_decimal b rest,
        parse_part_lem (decimal b) b (length-decimal b) h (part_value-decimal b h),
      )
      refl

-- One part of a printed text, with the dot behind it.
parse_parts-part_text :
    (n y : ℕ) (rest : List ℕ) (value : ℕ)
    → parse_parts (suc n) (part_text y ++ b'.' ∷ rest) value
      ≡ parse_parts n rest (value * 256 + y % 256)
unfolding parse_parts
parse_parts-part_text n y rest value = elim (Bool-cases (y == 0)) [
  | inl e ↦
      rw (e, split_empty rest, parse_part_lem [] 0 (omega arith) (omega arith) (part_value-end 0))
        (ap (λ v. parse_parts n rest (value * 256 + v)) (omega (arith, ==→eq y 0 e)))
  | inr e ↦ rw e (parse_parts-decimal n (y % 256) rest value (omega arith))
]

quad-dot :
    (a b c d : List ℕ)
    → quad a b c d ++ b'.' ∷ [] ≡ a ++ b'.' ∷ (b ++ b'.' ∷ (c ++ b'.' ∷ (d ++ b'.' ∷ [])))
quad-dot a b c d =
    append_assoc a (b'.' ∷ (b ++ b'.' ∷ (c ++ b'.' ∷ d))) (b'.' ∷ [])
    ∙ ap (λ t. a ++ b'.' ∷ t)
        (append_assoc b (b'.' ∷ (c ++ b'.' ∷ d)) (b'.' ∷ [])
          ∙ ap (λ t. b ++ b'.' ∷ t) (append_assoc c (b'.' ∷ d) (b'.' ∷ [])))

-- The address that the node prints for a uint32_t is one that the client's `parseIP` accepts, and
-- reads as the same number.
pub parse_ip-ip_uint_into_str :
    (x : ℕ)
    → x < 2 ^ 32
    → (text : List ℕ) × (ip_uint_into_str x ≡ some text) × (parse_ip text ≡ some x)
unfolding parse_ip parse_parts
parse_ip-ip_uint_into_str x h =
    let a = part_text (x / 2 ^ 24) in
    let b = part_text (x / 2 ^ 16) in
    let c = part_text (x / 2 ^ 8) in
    let d = part_text x in
    (
      quad a b c d,
      ip_uint_into_str_lem x h,
      rw
          (
            quad-dot a b c d,
            parse_parts-part_text 3 (x / 2 ^ 24) (b ++ b'.' ∷ (c ++ b'.' ∷ (d ++ b'.' ∷ []))) 0,
            parse_parts-part_text 2 (x / 2 ^ 16) (c ++ b'.' ∷ (d ++ b'.' ∷ [])),
            parse_parts-part_text 1 (x / 2 ^ 8) (d ++ b'.' ∷ []),
            parse_parts-part_text 0 x [],
          )
          (ap some (omega arith)),
    )

-- `parseIP` reads the canonical dotted-quad text of every uint32_t.
pub parse_ip-dotted : (x : ℕ) → x < 2 ^ 32 → parse_ip (dotted x) ≡ some x
unfolding parse_ip parse_parts
parse_ip-dotted x h =
    let a = x / 2 ^ 24 % 256 in
    let b = x / 2 ^ 16 % 256 in
    let c = x / 2 ^ 8 % 256 in
    let d = x % 256 in
    let d' = decimal d ++ b'.' ∷ [] in
    let c' = decimal c ++ b'.' ∷ d' in
    let b' = decimal b ++ b'.' ∷ c' in
    rw
      (
        quad-dot (decimal a) (decimal b) (decimal c) (decimal d),
        parse_parts-decimal 3 a b' 0 (omega arith),
        parse_parts-decimal 2 b c' _ (omega arith),
        parse_parts-decimal 1 c d' _ (omega arith),
        parse_parts-decimal 0 d [] _ (omega arith),
      )
      (ap some (omega arith))
