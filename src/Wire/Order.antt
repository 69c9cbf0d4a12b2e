-- ===== src/Wire/Order.antt =====
-- Byte order: `htons`, `htonl` and their inverses on a machine that stores the low byte first, and
-- reads from memory, where `none` is a read past its end.
use resilient_overlay_networ.Base.{
  ℕ, ◌+◌, ◌*◌, ◌/◌, ◌%◌, ◌^◌, ◌<◌, ◌≡◌, List, ◌∷◌, Option, some, ◌>>=◌, get_elem?, arith,
}

unfoldable pub htons : ℕ → ℕ
htons x = x % 256 * 256 + x / 256 % 256

unfoldable pub ntohs : ℕ → ℕ
unfolding htons
ntohs x = htons x

unfoldable pub htonl : ℕ → ℕ
htonl x = x % 256 * 2 ^ 24 + x / 2 ^ 8 % 256 * 2 ^ 16 + x / 2 ^ 16 % 256 * 2 ^ 8 + x / 2 ^ 24 % 256

unfoldable pub ntohl : ℕ → ℕ
unfolding htonl
ntohl x = htonl x

pub ntohs-htons : (x : ℕ) → x < 2 ^ 16 → ntohs (htons x) ≡ x
unfolding ntohs
ntohs-htons x h = omega arith

pub htons-ntohs : (x : ℕ) → x < 2 ^ 16 → htons (ntohs x) ≡ x
unfolding ntohs
htons-ntohs x h = omega arith

pub htons-lt : (x : ℕ) → htons x < 2 ^ 16
unfolding htons
htons-lt x = omega arith

pub ntohl-htonl : (x : ℕ) → x < 2 ^ 32 → ntohl (htonl x) ≡ x
unfolding ntohl
ntohl-htonl x h = omega arith

pub htonl-ntohl : (x : ℕ) → x < 2 ^ 32 → htonl (ntohl x) ≡ x
unfolding ntohl
htonl-ntohl x h = omega arith

pub htonl-lt : (x : ℕ) → htonl x < 2 ^ 32
unfolding htonl
htonl-lt x = omega arith

-- A field in memory, in front of what follows it.
abbrev pub le16 : ℕ → List ℕ → List ℕ
le16 x rest = (x % 256) ∷ ((x / 256) ∷ rest)

abbrev pub le32 : ℕ → List ℕ → List ℕ
le32 x rest = (x % 256) ∷ ((x / 2 ^ 8 % 256) ∷ ((x / 2 ^ 16 % 256) ∷ ((x / 2 ^ 24) ∷ rest)))

unfoldable pub read16 : List ℕ → ℕ → Option ℕ
read16 m i = do lo ← get_elem? m i; hi ← get_elem? m (i + 1); some (lo + 256 * hi)

unfoldable pub read32 : List ℕ → ℕ → Option ℕ
read32 m i = do
  b0 ← get_elem? m i
  b1 ← get_elem? m (i + 1)
  b2 ← get_elem? m (i + 2)
  b3 ← get_elem? m (i + 3)
  some (b0 + 2 ^ 8 * b1 + 2 ^ 16 * b2 + 2 ^ 24 * b3)
