-- ===== src/Client/Args.antt =====
-- `parseIP` and `parsePort` of base/cf.cpp. A text is the list of its bytes, without the final NUL.
pub mod Port
pub mod Printed
use resilient_overlay_networ.Base.{
  ℕ, zero, suc, ◌+◌, ◌-◌, ◌*◌, ◌%◌, ◌^◌, List, [], ◌∷◌, ◌++◌, Option, none, some, Bool, true, false,
  ◌==◌, ◌||◌, ltb, if◌then◌else◌, ◌>>=◌, length,
}

-- The text before the first dot, and what follows that dot: `ip.find ('.', dotPos)`.
unfoldable pub split_dot : List ℕ → Option (List ℕ × List ℕ)
split_dot [] = none
split_dot (c ∷ cs) = elim (c == b'.') [
  | true ↦ some ([], cs)
  | false ↦ split_dot cs >>= λ (part, rest). some (c ∷ part, rest)
]

-- `num = num * 10 + d` over the characters of a part; any that is no digit refuses the text. A part
-- has three characters at most here, so the sum does not wrap.
unfoldable pub part_value : List ℕ → ℕ → Option ℕ
part_value [] num = some num
part_value (c ∷ cs) num =
    let rest = part_value cs (num * 10 + (c - b'0')) in
    if ltb c b'0' || ltb b'9' c then none else rest

unfoldable pub parse_part : List ℕ → Option ℕ
unfolding part_value
parse_part part =
    if ltb 3 (length part)
    then none
    else (part_value part 0 >>= λ num. if ltb 255 num then none else some num)

-- The loop over the four parts, with the number that the bytes so far stand for.
unfoldable pub parse_parts : ℕ → List ℕ → ℕ → Option (ℕ × List ℕ)
parse_parts zero text value = some (value, text)
parse_parts (suc n) text value = do
  (part, rest) ← split_dot text
  num ← parse_part part
  parse_parts n rest (value * 256 + num)

-- A dot is put behind the text, and all of it has to be read.
unfoldable pub parse_ip : List ℕ → Option ℕ
parse_ip ip = do
  (value, rest) ← parse_parts 4 (ip ++ b'.' ∷ []) 0
  elim rest [ [] ↦ some value | c ∷ cs ↦ none ]

-- What `parsePort` does: a number, a refusal, or a signed overflow, which C++ leaves undefined.
pub data Parsed : Type 0 where
  port : ℕ → Parsed
  refused : Parsed
  undefined : Parsed

unfoldable pub port_loop : List ℕ → ℕ → Parsed
port_loop [] num = if ltb num (2 ^ 16) then port num else refused
port_loop (c ∷ cs) num =
    let num' = num * 10 + (c - b'0') in
    let rest = port_loop cs num' in
    if ltb c b'0' || ltb b'9' c then refused else if ltb num' (2 ^ 31) then rest else undefined

unfoldable pub parse_port : List ℕ → Parsed
parse_port text = port_loop text 0
