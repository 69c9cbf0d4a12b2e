-- ===== src/Address.antt =====
-- The conversions between IPv4 addresses and text of user/sm.cpp: `ip_into_uint` and
-- `ipUint_into_str`. A text is the list of its bytes; a uint32_t is a number below 2 ^ 32.
pub mod Parse
pub mod Print
mod Tests
use resilient_overlay_networ.Base.{
  ℕ, zero, suc, ◌+◌, ◌-◌, ◌*◌, ◌/◌, ◌%◌, ◌^◌, List, [], ◌∷◌, ◌++◌, Option, none, some, true, false,
  ◌==◌, ltb, if◌then◌else◌, ◌>>=◌, set,
}

-- `c - '0'` on a signed char, as the uint32_t that it is added as.
unfoldable pub char_digit : ℕ → ℕ
char_digit c = (if ltb c 128 then c + 2 ^ 32 - 48 else c + 2 ^ 32 - 256 - 48) % 2 ^ 32

unfoldable pub ip_into_uint_loop : List ℕ → ℕ → ℕ → ℕ
ip_into_uint_loop [] sum part = (sum + part) % 2 ^ 32
ip_into_uint_loop (c ∷ cs) sum part = elim (c == b'.') [
  | true ↦ ip_into_uint_loop cs ((sum + part) % 2 ^ 32 * 256 % 2 ^ 32) 0
  | false ↦ ip_into_uint_loop cs sum ((part * 10 % 2 ^ 32 + char_digit c) % 2 ^ 32)
]

unfoldable pub ip_into_uint : List ℕ → ℕ
ip_into_uint ip_str = ip_into_uint_loop ip_str 0 0

-- The `do … while (part != 0)` loop, which puts the digits in front of `text`. `none` means that the
-- fuel ran out; a uint32_t has at most ten digits.
unfoldable pub part_loop : ℕ → ℕ → List ℕ → Option (List ℕ)
part_loop zero part text = none
part_loop (suc fuel) part text =
    let text' : List ℕ = (b'0' + part % 10) ∷ text in
    let rest = part_loop fuel (part / 10) text' in if part / 10 == 0 then some text' else rest

-- The `while (ip_uint != 0)` loop. Its first argument is `i + 1`, so at `zero` the next write would be
-- to `ip_str[-1]`.
unfoldable pub fill_parts : ℕ → ℕ → List (List ℕ) → Option (List (List ℕ))
fill_parts zero ip_uint ip_str = if ip_uint == 0 then some ip_str else none
fill_parts (suc i) ip_uint ip_str = elim (ip_uint == 0) [
  | true ↦ some ip_str
  | false ↦
      part_loop 10 (ip_uint % 256) [] >>= λ text. fill_parts i (ip_uint / 256) (set ip_str i text)
]

-- `ip_str[0] + "." + ip_str[1] + "." + ip_str[2] + "." + ip_str[3]`
unfoldable pub join_parts : List (List ℕ) → Option (List ℕ)
join_parts (a ∷ b ∷ c ∷ d ∷ []) = some (a ++ b'.' ∷ (b ++ b'.' ∷ (c ++ b'.' ∷ d)))
join_parts _ = none

unfoldable pub ip_uint_into_str : ℕ → Option (List ℕ)
ip_uint_into_str ip_uint = do
  ip_str ← fill_parts 4 ip_uint ([] ∷ [] ∷ [] ∷ [] ∷ [])
  join_parts ip_str
