-- ===== src/Client/Args/Port.antt =====
-- Decimal ports.
use resilient_overlay_networ.Base.{
  ℕ, ◌+◌, ◌-◌, ◌*◌, ◌^◌, ◌≤◌, ◌<◌, ◌≡◌, List, [], ◌∷◌, ltb, if◌then◌else◌, arith, All, ◌∙◌,
  Bool-cases, inl, inr, ltb→lt, le→ltb, lt→ltb,
}
use resilient_overlay_networ.Client.Args.{Parsed, port, refused, undefined, port_loop, parse_port}

abbrev pub IsDigit : ℕ → Type 0
IsDigit c = (b'0' ≤ c) × (c ≤ b'9')

-- The number that decimal digits stand for, behind those read so far.
abbrev pub number : List ℕ → ℕ → ℕ
number [] n = n
number (c ∷ cs) n = number cs (n * 10 + (c - b'0'))

number-le : (cs : List ℕ) (n : ℕ) → n ≤ number cs n
number-le [] n = omega arith
number-le (c ∷ cs) n = omega (arith, number-le cs (n * 10 + (c - b'0')))

abbrev pub verdict : ℕ → Parsed
verdict v = if ltb v (2 ^ 16) then port v else if ltb v (2 ^ 31) then refused else undefined

loop_step :
    (c : ℕ) (cs : List ℕ) (n : ℕ)
    → IsDigit c
    → port_loop (c ∷ cs) n ≡ (
        if ltb (n * 10 + (c - b'0')) (2 ^ 31)
        then port_loop cs (n * 10 + (c - b'0'))
        else undefined)
unfolding port_loop
loop_step c cs n (lo, hi) = rw (le→ltb c b'0' lo, le→ltb b'9' c hi)

port_loop-verdict :
    (cs : List ℕ) (n : ℕ) → n < 2 ^ 31 → All IsDigit cs → port_loop cs n ≡ verdict (number cs n)
port_loop-verdict [] n h d = unfold port_loop in rw (lt→ltb n (2 ^ 31) h)
port_loop-verdict (c ∷ cs) n h (d, ds) =
    let n' = n * 10 + (c - b'0') in
    loop_step c cs n d ∙ elim (Bool-cases (ltb n' (2 ^ 31))) [
      | inl e ↦ rw e (port_loop-verdict cs n' (ltb→lt n' (2 ^ 31) e) ds)
      | inr e ↦
          let big : 2 ^ 31 ≤ number cs n' = ground (arith, number-le cs n') in
          rw (e, le→ltb (number cs n') (2 ^ 16) (omega arith), le→ltb (number cs n') (2 ^ 31) big)
    ]

-- On decimal digits `parsePort` gives the number if it is a port, refuses it from 65536 on, and from
-- 2 ^ 31 on runs into a signed overflow.
pub parse_port-verdict :
    (text : List ℕ) → All IsDigit text → parse_port text ≡ verdict (number text 0)
unfolding parse_port
parse_port-verdict text h = port_loop-verdict text 0 (omega arith) h
