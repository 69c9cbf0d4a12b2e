-- ===== src/Filter/Bounds.antt =====
-- Which memory `is_valid_packet` reads, and which it should not have read.
use resilient_overlay_networ.Base.{
  ℕ, zero, suc, ◌+◌, ◌-◌, ◌*◌, ◌/◌, ◌%◌, ◌≤◌, ◌<◌, ◌≡◌, refl, List, [], ◌∷◌, none, some, get_elem?,
  drop, arith, eq→==, le→ltb, length,
}
use resilient_overlay_networ.Checksum.{check_sum_ip, sum_words}
use resilient_overlay_networ.Wire.{Frame}
use resilient_overlay_networ.Wire.Order.{ntohs, read16}
use resilient_overlay_networ.Filter.{is_valid_packet}

pub sum_words_short : (n : ℕ) (m : List ℕ) (s : ℕ) → length m < 2 * n → sum_words n m s ≡ none
unfolding sum_words
sum_words_short zero m s h = absurd (omega arith)
sum_words_short (suc n) [] s h = refl
sum_words_short (suc n) (lo ∷ []) s h = refl
sum_words_short (suc n) (lo ∷ hi ∷ m) s h = sum_words_short n m _ (omega arith)

pub length-drop : (n : ℕ) (m : List ℕ) → length (drop n m) ≡ length m - n
length-drop zero m = omega arith
length-drop (suc n) [] = omega arith
length-drop (suc n) (x ∷ m) = omega (arith, length-drop n m)

check_sum_ip_short : (m : List ℕ) (hl : ℕ) → length m < 4 * hl → check_sum_ip m hl ≡ none
unfolding check_sum_ip
check_sum_ip_short m hl h = rw (sum_words_short (hl * 2) m 0 (omega arith))

-- `is_valid_packet` adds up as many words as the header length field says before it has compared
-- that field with anything: on an IPv4 frame of 28 bytes or more, of the length that its header
-- says and with no memory behind that, it reads behind the frame whenever the IP header would end
-- there.
pub is_valid_packet_overread :
    (frame : Frame) (ether_type ip_len version : ℕ)
    → length frame.bytes ≡ frame.length
    → 28 ≤ frame.length
    → read16 frame.bytes 12 ≡ some ether_type
    → ntohs ether_type ≡ 0x800
    → read16 frame.bytes 16 ≡ some ip_len
    → frame.length ≡ ntohs ip_len + 14
    → get_elem? frame.bytes 14 ≡ some version
    → version / 16 ≡ 4
    → frame.length < 14 + 4 * (version % 16)
    → is_valid_packet frame ≡ none
unfolding is_valid_packet
is_valid_packet_overread frame ether_type ip_len version whole long at_type ip at_len fits at_v v4
      short =
    rw (
      le→ltb frame.length 14 (omega arith),
      at_type,
      eq→== _ _ ip,
      le→ltb frame.length 28 (omega arith),
      at_len,
      eq→== _ _ fits,
      at_v,
      eq→== _ _ v4,
      check_sum_ip_short (drop 14 frame.bytes) (version % 16)
          (omega (arith, length-drop 14 frame.bytes)),
    )
