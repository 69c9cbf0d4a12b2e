-- ===== src/Send/Frames.antt =====
-- The IP header that `set_ip_header` leaves, for the packets that the program sends.
use resilient_overlay_networ.Base.{
  ℕ, ◌+◌, ◌%◌, ◌^◌, ◌<◌, ◌≡◌, refl, [], some, Bool, true, false, if◌then◌else◌, arith,
}
use resilient_overlay_networ.Checksum.{check_sum_ip, fold_ip}
use resilient_overlay_networ.Checksum.Verify.{word_total, check_sum_ip_lem}
use resilient_overlay_networ.Wire.{Ip, Ifaces, ip_bytes, fill_ip_header, set_ip_header}
use resilient_overlay_networ.Wire.Order.{htons, htonl, htons-lt, htonl-lt}

-- The header of the packets that the program sends, before its checksum.
abbrev pub plain_header : ℕ → ℕ → ℕ → ℕ → Ip
plain_header ip_p ip_len ip_src ip_dst = record {
  ip_hl = 5;
  ip_v = 4;
  ip_tos = 0;
  ip_len = ip_len;
  ip_id = 0;
  ip_off = 0;
  ip_ttl = 64;
  ip_p = ip_p;
  ip_sum = 0;
  ip_src = ip_src;
  ip_dst = ip_dst;
}

-- The sum of its ten words.
abbrev pub header_total : ℕ → ℕ → ℕ → ℕ → ℕ
header_total ip_p ip_len ip_src ip_dst =
    word_total 10 (ip_bytes (plain_header ip_p ip_len ip_src ip_dst) [])

header_checksum :
    (ip_p ip_len ip_src ip_dst : ℕ)
    → ip_p < 256
    → ip_len < 2 ^ 16
    → ip_src < 2 ^ 32
    → ip_dst < 2 ^ 32
    → check_sum_ip (ip_bytes (plain_header ip_p ip_len ip_src ip_dst) []) 5
      ≡ some (fold_ip (header_total ip_p ip_len ip_src ip_dst))
header_checksum ip_p ip_len ip_src ip_dst hp hl hs hd =
    check_sum_ip_lem _ 5 (omega arith) (omega arith) (omega arith)

abbrev pub sent_header : ℕ → ℕ → ℕ → ℕ → Ip
sent_header ip_p ip_len ip_src ip_dst = record (plain_header ip_p ip_len ip_src ip_dst) {
  ip_sum = fold_ip (header_total ip_p ip_len ip_src ip_dst);
}

htons-zero : htons 0 ≡ 0
unfolding htons
htons-zero = refl

module _ (ifc : Ifaces) (dest_ip : ℕ) (raw : Ip) where
  pub set_ip_header-icmp :
      (size : ℕ)
      → set_ip_header ifc dest_ip 1 size false false raw
        ≡ some (sent_header 1 (htons 32) (htonl ifc.ip1) (htonl dest_ip))
  unfolding set_ip_header fill_ip_header
  set_ip_header-icmp size = rw (
    htons-zero,
    header_checksum 1 (htons 32) (htonl ifc.ip1) (htonl dest_ip) (omega arith)
        (omega (arith, htons-lt 32)) (omega (arith, htonl-lt ifc.ip1))
        (omega (arith, htonl-lt dest_ip)),
  )

  pub set_ip_header-advert :
      (size : ℕ)
      → set_ip_header ifc dest_ip 17 size false false raw
        ≡ some (sent_header 17 (htons ((28 + size) % 2 ^ 16)) (htonl ifc.ip0) (htonl dest_ip))
  unfolding set_ip_header fill_ip_header
  set_ip_header-advert size = rw (
    htons-zero,
    header_checksum 17 (htons ((28 + size) % 2 ^ 16)) (htonl ifc.ip0) (htonl dest_ip) (omega arith)
        (omega (arith, htons-lt ((28 + size) % 2 ^ 16))) (omega (arith, htonl-lt ifc.ip0))
        (omega (arith, htonl-lt dest_ip)),
  )

  pub set_ip_header-dsa :
      (size : ℕ) (is_self : Bool)
      → set_ip_header ifc dest_ip 17 size true is_self raw
        ≡ some (
            sent_header 17
              (htons ((28 + size) % 2 ^ 16))
              (htonl (if is_self then ifc.ip1 else ifc.ip0))
              (htonl dest_ip))
  unfolding set_ip_header fill_ip_header
  set_ip_header-dsa size is_self = rw (
    htons-zero,
    header_checksum 17 (htons ((28 + size) % 2 ^ 16)) (htonl (if is_self then ifc.ip1 else ifc.ip0))
        (htonl dest_ip) (omega arith) (omega (arith, htons-lt ((28 + size) % 2 ^ 16)))
        (omega (arith, htonl-lt (if is_self then ifc.ip1 else ifc.ip0)))
        (omega (arith, htonl-lt dest_ip)),
  )
