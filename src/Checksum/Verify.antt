-- ===== src/Checksum/Verify.antt =====
-- What the checksums promise: a header that carries its checksum adds up to zero.
use resilient_overlay_networ.Base.{
  ℕ, zero, suc, ◌+◌, ◌-◌, ◌*◌, ◌/◌, ◌%◌, ◌^◌, ◌≤◌, ◌<◌, ◌≡◌, sym, ap, ◌∙◌, ◌↔◌, List, [], ◌∷◌, ◌++◌,
  some, arith, length, length-append, All,
}
use resilient_overlay_networ.Base.Bits.{xor_low16}
use resilient_overlay_networ.Checksum.{
  check_sum_ip, check_sum_icmp, sum_words, sum_bytes, fold_ip, fold_icmp,
}

abbrev pub IsByte : ℕ → Type 0
IsByte b = b < 256

-- The sum of the first `n` 16-bit words, with no bound.
abbrev pub word_total : ℕ → List ℕ → ℕ
word_total zero m = 0
word_total (suc n) [] = 0
word_total (suc n) (lo ∷ []) = 0
word_total (suc n) (lo ∷ hi ∷ m) = lo + 256 * hi + word_total n m

-- Both folds, in plain arithmetic.
pub fold_ip_lem : (s : ℕ) → s < 2 ^ 32 → fold_ip s ≡ 0xffff - (s / 2 ^ 16 + s % 2 ^ 16) % 2 ^ 16
unfolding fold_ip
fold_ip_lem s h = omega (arith, xor_low16 (s / 2 ^ 16 % 2 ^ 16 + s % 2 ^ 16))

pub fold_ip-lt : (s : ℕ) → fold_ip s < 2 ^ 16
unfolding fold_ip
fold_ip-lt s = omega arith

word_total-le : (n : ℕ) (m : List ℕ) → All IsByte m → word_total n m ≤ n * 0xffff
word_total-le zero m h = omega arith
word_total-le (suc n) [] h = omega arith
word_total-le (suc n) (lo ∷ []) h = omega arith
word_total-le (suc n) (lo ∷ hi ∷ m) (hl, (hh, hm)) = omega (arith, word_total-le n m hm)

sum_words_lem :
    (n : ℕ) (m : List ℕ) (s : ℕ)
    → 2 * n ≤ length m
    → s + word_total n m < 2 ^ 32
    → sum_words n m s ≡ some (s + word_total n m)
unfolding sum_words
sum_words_lem zero m s h b = ap some (omega arith)
sum_words_lem (suc n) [] s h b = absurd (omega arith)
sum_words_lem (suc n) (lo ∷ []) s h b = absurd (omega arith)
sum_words_lem (suc n) (lo ∷ hi ∷ m) s h b =
    let small : (s + (lo + 256 * hi)) % 2 ^ 32 ≡ s + (lo + 256 * hi) = omega arith in
    rw small
      (sum_words_lem n m (s + (lo + 256 * hi)) (omega arith) (omega arith) ∙ ap some (omega arith))

-- On a header of up to fifteen 32-bit words the accumulator does not wrap.
pub check_sum_ip_lem :
    (m : List ℕ) (hl : ℕ)
    → All IsByte m
    → hl < 16
    → 4 * hl ≤ length m
    → check_sum_ip m hl ≡ some (fold_ip (word_total (hl * 2) m))
unfolding check_sum_ip
check_sum_ip_lem m hl hm hh hn =
    rw (sum_words_lem (hl * 2) m 0 (omega arith) (omega (arith, word_total-le (hl * 2) m hm)))
      (ap some (ap fold_ip (omega arith)))

-- The arithmetic of acceptance: the fold is zero exactly on positive multiples of 0xffff.
fold_ip-zero : (t : ℕ) → t < 2 ^ 21 → (fold_ip t ≡ 0) ↔ ((0 < t) × (t % 0xffff ≡ 0))
fold_ip-zero t h = (
  λ e. (omega (arith, fold_ip_lem t (omega arith)), omega (arith, fold_ip_lem t (omega arith))),
  λ (p, q). omega (arith, fold_ip_lem t (omega arith)),
)

some-zero : {a b : ℕ} → some a ≡ some b → a ≡ b
some-zero e = cc

-- A received header of up to fifteen 32-bit words of bytes, wholly in memory, passes `check_sum_ip`
-- exactly when the sum of its 16-bit words is positive and zero in ones' complement (a multiple of
-- 0xffff).
pub check_sum_ip-accepts :
    (m : List ℕ) (hl : ℕ)
    → All IsByte m
    → hl < 16
    → 4 * hl ≤ length m
    → (check_sum_ip m hl ≡ some 0)
      ↔ ((0 < word_total (hl * 2) m) × (word_total (hl * 2) m % 0xffff ≡ 0))
check_sum_ip-accepts m hl hm hh hn =
    let small : word_total (hl * 2) m < 2 ^ 21 = omega (arith, word_total-le (hl * 2) m hm) in
    let zero_iff = fold_ip-zero (word_total (hl * 2) m) small in
    let sum = check_sum_ip_lem m hl hm hh hn in
    (λ e. zero_iff.0 (some-zero (sym sum ∙ e)), λ p. sum ∙ ap some (zero_iff.1 p))

-- A 16-bit store into the two bytes behind `front`.
abbrev pub with_word : List ℕ → ℕ → List ℕ → List ℕ
with_word front w back = front ++ (w % 256 ∷ (w / 256 ∷ back))

word_total-with_word :
    (k n : ℕ) (front back : List ℕ) (w : ℕ)
    → length front ≡ 2 * k
    → k < n
    → word_total n (with_word front w back) ≡ word_total n (with_word front 0 back) + w
word_total-with_word zero (suc n) [] back w e h = omega arith
word_total-with_word zero (suc n) (a ∷ f) back w e h = absurd (omega arith)
word_total-with_word k zero front back w e h = absurd (omega arith)
word_total-with_word (suc k) (suc n) [] back w e h = absurd (omega arith)
word_total-with_word (suc k) (suc n) (a ∷ []) back w e h = absurd (omega arith)
word_total-with_word (suc k) (suc n) (a ∷ b ∷ front) back w e h =
    omega (arith, word_total-with_word k n front back w (omega arith) (omega arith))

pub All-with_word :
    (front back : List ℕ) (w : ℕ)
    → w < 2 ^ 16
    → All IsByte front
    → All IsByte back
    → All IsByte (with_word front w back)
All-with_word [] back w h hf hb = (omega arith, (omega arith, hb))
All-with_word (a ∷ front) back w h (ha, hf) hb = (ha, All-with_word front back w h hf hb)

pub length-with_word :
    (front back : List ℕ) (w : ℕ) → length (with_word front w back) ≡ length front + length back + 2
length-with_word front back w = omega (arith, length-append {0} front (w % 256 ∷ (w / 256 ∷ back)))

-- What the sender stores verifies exactly when the first fold leaves no carry.
fold_ip_sent :
    (t : ℕ)
    → t < 2 ^ 21 - 2 ^ 16
    → (fold_ip (t + fold_ip t) ≡ 0) ↔ (t / 2 ^ 16 + t % 2 ^ 16 < 2 ^ 16)
fold_ip_sent t h =
    let first = fold_ip_lem t (omega arith) in
    let second = fold_ip_lem (t + fold_ip t) (omega (arith, fold_ip-lt t)) in
    (λ e. omega arith, λ p. omega arith)

-- The checksum that `set_ip_header` and the translating branches store: computed over a header of
-- up to fifteen 32-bit words of bytes, wholly in memory and with a zero checksum field, and then
-- written into that field, which holds the word number `k` of the header. The header so written
-- passes `check_sum_ip` exactly when one round of carries is enough for the sum of its words.
pub check_sum_ip-sent :
    (front back : List ℕ) (k hl : ℕ)
    → All IsByte front
    → All IsByte back
    → length front ≡ 2 * k
    → k < hl * 2
    → hl < 16
    → 4 * hl ≤ length front + length back + 2
    → let total = word_total (hl * 2) (with_word front 0 back) in
      (check_sum_ip (with_word front 0 back) hl ≡ some (fold_ip total))
      × ((check_sum_ip (with_word front (fold_ip total) back) hl ≡ some 0)
          ↔ (total / 2 ^ 16 + total % 2 ^ 16 < 2 ^ 16))
check_sum_ip-sent front back k hl hf hb e hk hh hn =
    let total = word_total (hl * 2) (with_word front 0 back) in
    let c = fold_ip total in
    let bytes_0 = All-with_word front back 0 (omega arith) hf hb in
    let bytes_c = All-with_word front back c (fold_ip-lt total) hf hb in
    let first =
      check_sum_ip_lem (with_word front 0 back) hl bytes_0 hh
        (omega (arith, length-with_word front back 0)) in
    let second =
      check_sum_ip_lem (with_word front c back) hl bytes_c hh
        (omega (arith, length-with_word front back c)) in
    let sum : word_total (hl * 2) (with_word front c back) ≡ total + c =
      word_total-with_word k (hl * 2) front back c e hk in
    let small : total < 2 ^ 21 - 2 ^ 16 =
      omega (arith, word_total-le (hl * 2) (with_word front 0 back) bytes_0) in
    let sent = fold_ip_sent total small in
    let second' : check_sum_ip (with_word front c back) hl ≡ some (fold_ip (total + c)) =
      second ∙ ap some (ap fold_ip sum) in
    (first, (λ p. sent.0 (some-zero (sym second' ∙ p)), λ p. second' ∙ ap some (sent.1 p)))

abbrev double : ℕ → ℕ
double zero = 0
double (suc n) = suc (suc (double n))

sum_bytes_lem :
    (n : ℕ) (m : List ℕ) (s : ℕ)
    → 2 * n ≤ length m
    → s + word_total n m < 2 ^ 32
    → sum_bytes (double n) m s ≡ some (s + word_total n m)
unfolding sum_bytes
sum_bytes_lem zero m s h b = ap some (omega arith)
sum_bytes_lem (suc n) [] s h b = absurd (omega arith)
sum_bytes_lem (suc n) (lo ∷ []) s h b = absurd (omega arith)
sum_bytes_lem (suc n) (lo ∷ hi ∷ m) s h b =
    let small : (s + (lo + 256 * hi)) % 2 ^ 32 ≡ s + (lo + 256 * hi) = omega arith in
    rw small
      (sum_bytes_lem n m (s + (lo + 256 * hi)) (omega arith) (omega arith) ∙ ap some (omega arith))

pub check_sum_icmp_lem :
    (m : List ℕ)
    → All IsByte m
    → 12 ≤ length m
    → check_sum_icmp m ≡ some (fold_icmp (word_total 6 m))
unfolding check_sum_icmp
check_sum_icmp_lem m hm hn =
    rw (sum_bytes_lem 6 m 0 (omega arith) (omega (arith, word_total-le 6 m hm)))
      (ap some (ap fold_icmp (omega arith)))

fold_icmp-lt : (s : ℕ) → fold_icmp s < 2 ^ 16
unfolding fold_icmp
fold_icmp-lt s = omega arith

fold_icmp_sent : (t : ℕ) → t < 2 ^ 20 → (0 < t + fold_icmp t) × ((t + fold_icmp t) % 0xffff ≡ 0)
unfolding fold_icmp
fold_icmp_sent t h = (omega arith, omega arith)

-- The checksum that `set_icmp_header_in_ping_packet` stores over the twelve bytes of an echo
-- request always makes the sum of the 16-bit words positive and zero in ones' complement: two
-- rounds of carries are enough for twelve bytes.
pub check_sum_icmp-sent :
    (front back : List ℕ)
    → All IsByte front
    → All IsByte back
    → length front ≡ 2
    → length back ≡ 8
    → let total = word_total 6 (with_word front 0 back) in
      (check_sum_icmp (with_word front 0 back) ≡ some (fold_icmp total))
      × (0 < word_total 6 (with_word front (fold_icmp total) back))
      × (word_total 6 (with_word front (fold_icmp total) back) % 0xffff ≡ 0)
check_sum_icmp-sent front back hf hb ef eb =
    let total = word_total 6 (with_word front 0 back) in
    let bytes = All-with_word front back 0 (omega arith) hf hb in
    let sum : word_total 6 (with_word front (fold_icmp total) back) ≡ total + fold_icmp total =
      word_total-with_word 1 6 front back (fold_icmp total) ef (omega arith) in
    let sent =
      fold_icmp_sent total (omega (arith, word_total-le 6 (with_word front 0 back) bytes)) in
    (
      check_sum_icmp_lem (with_word front 0 back) bytes
          (omega (arith, length-with_word front back 0)),
      omega arith,
      rw sum sent.1,
    )
