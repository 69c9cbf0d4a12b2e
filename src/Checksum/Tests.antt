-- ===== src/Checksum/Tests.antt =====
-- Runs of the checksums, and the theorems on them at concrete headers.
use resilient_overlay_networ.Base.{
  ℕ, ◌+◌, ◌/◌, ◌%◌, ◌^◌, ◌<◌, ◌≡◌, refl, ◌↔◌, List, [], ◌∷◌, some, none, All, arith,
}
use resilient_overlay_networ.Checksum.{
  check_sum_ip, check_sum_icmp, sum_words, sum_bytes, fold_ip, fold_icmp,
}
use resilient_overlay_networ.Checksum.Verify.{
  IsByte, word_total, with_word, check_sum_ip-accepts, check_sum_ip-sent,
}

-- 10.0.0.1 to 10.0.0.2, a TTL of 64, UDP, 32 bytes.
abbrev header : List ℕ
header = 0x45 ∷ 0 ∷ 0 ∷ 32 ∷ 0 ∷ 0 ∷ 0 ∷ 0 ∷ 64 ∷ 17 ∷ 0 ∷ 0 ∷ 10 ∷ 0 ∷ 0 ∷ 1 ∷ 10 ∷ 0 ∷ 0 ∷ 2 ∷ []

check_sum_ip_runs : check_sum_ip header 5 ≡ some 0xcb66
unfolding check_sum_ip sum_words fold_ip
check_sum_ip_runs = refl

check_sum_ip_short : check_sum_ip header 6 ≡ none
unfolding check_sum_ip sum_words fold_ip
check_sum_ip_short = refl

check_sum_icmp_runs :
    check_sum_icmp (8 ∷ 0 ∷ 0 ∷ 0 ∷ 0 ∷ 1 ∷ 0 ∷ 0 ∷ 0x12 ∷ 0x34 ∷ 0x56 ∷ 0x78 ∷ []) ≡ some 0x528f
unfolding check_sum_icmp sum_bytes fold_icmp
check_sum_icmp_runs = refl

header-bytes : All IsByte header
header-bytes = (
  omega arith,
  (
    omega arith,
    (
      omega arith,
      (
        omega arith,
        (
          omega arith,
          (
            omega arith,
            (
              omega arith,
              (
                omega arith,
                (
                  omega arith,
                  (
                    omega arith,
                    (
                      omega arith,
                      (
                        omega arith,
                        (
                          omega arith,
                          (
                            omega arith,
                            (
                              omega arith,
                              (
                                omega arith,
                                (omega arith, (omega arith, (omega arith, (omega arith, tt)))),
                              ),
                            ),
                          ),
                        ),
                      ),
                    ),
                  ),
                ),
              ),
            ),
          ),
        ),
      ),
    ),
  ),
)

check_sum_ip-accepts_example :
    (check_sum_ip header 5 ≡ some 0)
    ↔ ((0 < word_total 10 header) × (word_total 10 header % 0xffff ≡ 0))
check_sum_ip-accepts_example =
    check_sum_ip-accepts header 5 header-bytes (omega arith) (omega arith)

-- The header above in front of its checksum field and behind it.
abbrev front : List ℕ
front = 0x45 ∷ 0 ∷ 0 ∷ 32 ∷ 0 ∷ 0 ∷ 0 ∷ 0 ∷ 64 ∷ 17 ∷ []

abbrev back : List ℕ
back = 10 ∷ 0 ∷ 0 ∷ 1 ∷ 10 ∷ 0 ∷ 0 ∷ 2 ∷ []

abbrev total : ℕ
total = word_total 10 (with_word front 0 back)

check_sum_ip-sent_example :
    (check_sum_ip (with_word front 0 back) 5 ≡ some (fold_ip total))
    × ((check_sum_ip (with_word front (fold_ip total) back) 5 ≡ some 0)
        ↔ (total / 2 ^ 16 + total % 2 ^ 16 < 2 ^ 16))
check_sum_ip-sent_example =
    check_sum_ip-sent front back 5 5
      (
        omega arith,
        (
          omega arith,
          (
            omega arith,
            (
              omega arith,
              (
                omega arith,
                (omega arith, (omega arith, (omega arith, (omega arith, (omega arith, tt))))),
              ),
            ),
          ),
        ),
      )
      (
        omega arith,
        (
          omega arith,
          (
            omega arith,
            (omega arith, (omega arith, (omega arith, (omega arith, (omega arith, tt))))),
          ),
        ),
      )
      refl (omega arith) (omega arith) (omega arith)
