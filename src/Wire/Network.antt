-- ===== src/Wire/Network.antt =====
-- Numbers in network byte order, the high byte first.
use resilient_overlay_networ.Base.{
  ℕ, ◌+◌, ◌*◌, ◌/◌, ◌%◌, ◌^◌, ◌≡◌, refl, ap, List, [], ◌∷◌, ◌++◌, some, arith, length,
  get_elem?-behind,
}
use resilient_overlay_networ.Wire.Order.{htons, htonl, le16, le32, read16, read32}

abbrev pub be16 : ℕ → List ℕ
be16 x = (x / 256 % 256) ∷ (x % 256) ∷ []

abbrev pub be32 : ℕ → List ℕ
be32 x = (x / 2 ^ 24 % 256) ∷ (x / 2 ^ 16 % 256) ∷ (x / 2 ^ 8 % 256) ∷ (x % 256) ∷ []

pub le16-htons : (x : ℕ) (rest : List ℕ) → le16 (htons x) rest ≡ be16 x ++ rest
unfolding htons
le16-htons x rest =
    let p : (x % 256 * 256 + x / 256 % 256) % 256 ≡ x / 256 % 256 = omega arith in
    let q : (x % 256 * 256 + x / 256 % 256) / 256 ≡ x % 256 = omega arith in rw (p, q) refl

pub le32-htonl : (x : ℕ) (rest : List ℕ) → le32 (htonl x) rest ≡ be32 x ++ rest
unfolding htonl
le32-htonl x rest =
    let y = htonl x in
    let p0 : y % 256 ≡ x / 2 ^ 24 % 256 = omega arith in
    let p1 : y / 2 ^ 8 % 256 ≡ x / 2 ^ 16 % 256 = omega arith in
    let p2 : y / 2 ^ 16 % 256 ≡ x / 2 ^ 8 % 256 = omega arith in
    let p3 : y / 2 ^ 24 ≡ x % 256 = omega arith in rw (p0, p1, p2, p3) refl

pub read32-be32 : (x : ℕ) (rest : List ℕ) → read32 (be32 x ++ rest) 0 ≡ some (htonl x)
unfolding read32 htonl
read32-be32 x rest = ap some (omega arith)

pub read16-be16 : (x : ℕ) (rest : List ℕ) → read16 (be16 x ++ rest) 0 ≡ some (htons x)
unfolding read16 htons
read16-be16 x rest = ap some (omega arith)

move : (k i : ℕ) → k + 0 + i ≡ k + i
move k i = omega arith

-- The same behind other bytes.
pub read32-behind :
    (front m : List ℕ) (pos : ℕ) → pos ≡ length front → read32 (front ++ m) pos ≡ read32 m 0
unfolding read32
read32-behind front m pos p =
    let at = λ (i : ℕ). get_elem?-behind front m i in
    let start : pos ≡ length front + 0 = omega arith in
    rw (start, at 0)
      (rw (move (length front) 1, move (length front) 2, move (length front) 3, at 1, at 2, at 3)
        refl)

pub read16-behind :
    (front m : List ℕ) (pos : ℕ) → pos ≡ length front → read16 (front ++ m) pos ≡ read16 m 0
unfolding read16
read16-behind front m pos p =
    let start : pos ≡ length front + 0 = omega arith in
    rw (start, get_elem?-behind front m 0, move (length front) 1, get_elem?-behind front m 1) refl
