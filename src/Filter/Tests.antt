-- ===== src/Filter/Tests.antt =====
-- A frame that is accepted, and one whose header would end behind it.
use resilient_overlay_networ.Base.{
  ℕ, All, ◌<◌, ◌≡◌, ◌↔◌, refl, inl, List, [], ◌∷◌, some, none, true, arith,
}
use resilient_overlay_networ.Checksum.{check_sum_ip, sum_words, fold_ip}
use resilient_overlay_networ.Wire.{Frame}
use resilient_overlay_networ.Wire.Order.{ntohs, read16}
use resilient_overlay_networ.Filter.{is_valid_packet, valid_transport, valid_udp, valid_icmp}
use resilient_overlay_networ.Filter.Accept.{Accepted}
use resilient_overlay_networ.Filter.Exact.{Exact, is_valid_packet_iff}
use resilient_overlay_networ.Filter.Bounds.{is_valid_packet_overread}

-- 10.0.0.1 to 10.0.0.2, UDP with four bytes of payload.
abbrev datagram : List ℕ
datagram =
    2 ∷ 0 ∷ 0 ∷ 0 ∷ 0 ∷ 1 ∷ 2 ∷ 0 ∷ 0 ∷ 0 ∷ 0 ∷ 2 ∷ 8 ∷ 0 ∷ 0x45 ∷ 0 ∷ 0 ∷ 32 ∷ 0 ∷ 0 ∷ 0 ∷ 0 ∷ 64
    ∷ 17 ∷ 0x66 ∷ 0xcb ∷ 10 ∷ 0 ∷ 0 ∷ 1 ∷ 10 ∷ 0 ∷ 0 ∷ 2 ∷ 0x13 ∷ 0x88 ∷ 0x13 ∷ 0x88 ∷ 0 ∷ 12 ∷ 0
    ∷ 0 ∷ 0x12 ∷ 0x34 ∷ 0x56 ∷ 0x78 ∷ []

abbrev good : Frame
good = record { length = 46; bytes = datagram }

good-accepted : is_valid_packet good ≡ some true
unfolding is_valid_packet valid_transport valid_udp valid_icmp check_sum_ip sum_words fold_ip ntohs
    read16
good-accepted = refl

abbrev good-Accepted : Accepted good
unfolding check_sum_ip sum_words fold_ip read16 ntohs valid_transport valid_udp
good-Accepted = record {
  ether_type = 8;
  ip_len = 0x2000;
  version = 0x45;
  ip_p = 17;
  at_type = refl;
  at_len = refl;
  at_version = refl;
  at_p = refl;
  is_ip = refl;
  has_length = refl;
  is_v4 = refl;
  sums = refl;
  is_known = inl refl;
  carries = refl;
}

good-bytes : All (λ b. b < 256) datagram
good-bytes = (
  omega arith,
  (
    omega arith,
    (
      omega arith,
      (
        omega arith,
        (
          omega arith,
          (
            omega arith,
            (
              omega arith,
              (
                omega arith,
                (
                  omega arith,
                  (
                    omega arith,
                    (
                      omega arith,
                      (
                        omega arith,
                        (
                          omega arith,
                          (
                            omega arith,
                            (
                              omega arith,
                              (
                                omega arith,
                                (
                                  omega arith,
                                  (
                                    omega arith,
                                    (
                                      omega arith,
                                      (
                                        omega arith,
                                        (
                                          omega arith,
                                          (
                                            omega arith,
                                            (
                                              omega arith,
                                              (
                                                omega arith,
                                                (
                                                  omega arith,
                                                  (
                                                    omega arith,
                                                    (
                                                      omega arith,
                                                      (
                                                        omega arith,
                                                        (
                                                          omega arith,
                                                          (
                                                            omega arith,
                                                            (
                                                            omega arith,
                                                            (
                                                            omega arith,
                                                            (
                                                            omega arith,
                                                            (
                                                            omega arith,
                                                            (
                                                            omega arith,
                                                            (
                                                            omega arith,
                                                            (
                                                            omega arith,
                                                            (
                                                            omega arith,
                                                            (
                                                            omega arith,
                                                            (
                                                            omega arith,
                                                            (
                                                            omega arith,
                                                            (
                                                            omega arith,
                                                            (
                                                            omega arith,
                                                            (
                                                            omega arith,
                                                            (omega arith, (omega arith, tt)),
                                                            ),
                                                            ),
                                                            ),
                                                            ),
                                                            ),
                                                            ),
                                                            ),
                                                            ),
                                                            ),
                                                            ),
                                                            ),
                                                            ),
                                                            ),
                                                            ),
                                                          ),
                                                        ),
                                                      ),
                                                    ),
                                                  ),
                                                ),
                                              ),
                                            ),
                                          ),
                                        ),
                                      ),
                                    ),
                                  ),
                                ),
                              ),
                            ),
                          ),
                        ),
                      ),
                    ),
                  ),
                ),
              ),
            ),
          ),
        ),
      ),
    ),
  ),
)

is_valid_packet_iff_example : (is_valid_packet good ≡ some true) ↔ Exact good
is_valid_packet_iff_example = is_valid_packet_iff good good-bytes

-- 28 bytes with a header length of 60.
abbrev short_frame : Frame
short_frame = record {
  length = 28;
  bytes =
      2 ∷ 0 ∷ 0 ∷ 0 ∷ 0 ∷ 1 ∷ 2 ∷ 0 ∷ 0 ∷ 0 ∷ 0 ∷ 2 ∷ 8 ∷ 0 ∷ 0x4f ∷ 0 ∷ 0 ∷ 14 ∷ 0 ∷ 0 ∷ 0 ∷ 0 ∷ 64
      ∷ 17 ∷ 0 ∷ 0 ∷ 10 ∷ 0 ∷ [];
}

is_valid_packet_overread_example : is_valid_packet short_frame ≡ none
unfolding read16 ntohs
is_valid_packet_overread_example =
    is_valid_packet_overread short_frame 8 0x0e00 0x4f refl (omega arith) refl refl refl refl refl
      refl (omega arith)
