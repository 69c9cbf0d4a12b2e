-- ===== src/Filter/Exact.antt =====
-- What `is_valid_packet` accepts, by the bytes of the frame alone.
use resilient_overlay_networ.Base.{
  ℕ, zero, suc, ◌+◌, ◌*◌, ◌/◌, ◌%◌, ◌≤◌, ◌<◌, ◌≡◌, ◌↔◌, ◌⊎◌, refl, inl, inr, List, [], ◌∷◌, some,
  Bool, true, false, not, ◌==◌, ◌||◌, ltb, get_elem?, lt_of_get_elem?, drop, length, All, arith,
  ==→eq, eq→==, le→ltb, ltb→lt, Bool-cases,
}
use resilient_overlay_networ.Checksum.{check_sum_ip}
use resilient_overlay_networ.Checksum.Verify.{IsByte, word_total, check_sum_ip-accepts}
use resilient_overlay_networ.Wire.{Frame}
use resilient_overlay_networ.Wire.Order.{ntohs, ntohl, read16, read32}
use resilient_overlay_networ.Filter.{is_valid_packet, valid_transport, valid_udp, valid_icmp}
use resilient_overlay_networ.Filter.Accept.{
  Accepted, is_valid_packet-Accepted, Accepted-is_valid_packet, pass, next, not-false,
}
use resilient_overlay_networ.Filter.Bounds.{sum_words_short, length-drop}

-- An UDP header whose length, behind an IP header of `ip_hl` words, fills the packet of length `ip_len`.
pub record CarriesUdp (frame : Frame) (ip_len ip_hl : ℕ) : Type 0 where
  pub udp_len : ℕ
  pub whole : 42 ≤ frame.length
  pub at_len : read16 frame.bytes 38 ≡ some udp_len
  pub fills : ntohs udp_len + 4 * ip_hl ≡ ntohs ip_len

-- An echo reply, type and code zero, with the payload of this program.
pub record CarriesReply (frame : Frame) : Type 0 where
  pub payload : ℕ
  pub whole : 46 ≤ frame.length
  pub at_type : get_elem? frame.bytes 34 ≡ some 0
  pub at_code : get_elem? frame.bytes 35 ≡ some 0
  pub at_payload : read32 frame.bytes 42 ≡ some payload
  pub is_ours : ntohl payload ≡ 0x1234_5678

-- The fields of the frame as they lie in memory, and what holds of them.
pub record Exact (frame : Frame) : Type 0 where
  pub ether_type : ℕ
  pub ip_len : ℕ
  pub version : ℕ
  pub ip_p : ℕ
  pub at_type : read16 frame.bytes 12 ≡ some ether_type
  pub at_len : read16 frame.bytes 16 ≡ some ip_len
  pub at_version : get_elem? frame.bytes 14 ≡ some version
  pub at_p : get_elem? frame.bytes 23 ≡ some ip_p
  pub is_ip : ntohs ether_type ≡ 0x800
  pub has_length : frame.length ≡ ntohs ip_len + 14
  pub is_v4 : version / 16 ≡ 4
  pub in_memory : 14 + 4 * (version % 16) ≤ length frame.bytes
  pub some_sum : 0 < word_total (version % 16 * 2) (drop 14 frame.bytes)
  pub zero_sum : word_total (version % 16 * 2) (drop 14 frame.bytes) % 0xffff ≡ 0
  pub carries :
      ((ip_p ≡ 17) × CarriesUdp frame ip_len (version % 16)) ⊎ ((ip_p ≡ 1) × CarriesReply frame)

passed : (n k : ℕ) → ltb n k ≡ false → k ≤ n
passed n k e = ground arith

three-false :
    (a b c : Bool) → not a || (not b || not c) ≡ false → (a ≡ true) × (b ≡ true) × (c ≡ true)
three-false true true true e = (refl, refl, refl)
three-false false b c e = cc
three-false true false c e = cc
three-false true true false e = cc

-- Both ways for the tests on an UDP header.
udp-CarriesUdp :
    (frame : Frame) (ip_len hl : ℕ)
    → valid_udp frame ip_len hl ≡ some true
    → CarriesUdp frame ip_len hl
unfolding valid_udp
udp-CarriesUdp frame ip_len hl e =
    let (long, e₁) = pass (ltb frame.length 42) e in
    let (len, at, e₂) = next (read16 frame.bytes 38) _ e₁ in
    let (t, e₃) = pass (not (ntohs len + 4 * hl == ntohs ip_len)) e₂ in
    record {
      udp_len = len;
      whole = passed frame.length 42 long;
      at_len = at;
      fills = ==→eq _ _ (not-false _ t);
    }

CarriesUdp-udp :
    (frame : Frame) (ip_len hl : ℕ)
    → CarriesUdp frame ip_len hl
    → valid_udp frame ip_len hl ≡ some true
unfolding valid_udp
CarriesUdp-udp frame ip_len hl c =
    rw (le→ltb frame.length 42 c.whole, c.at_len, eq→== _ _ c.fills) refl

-- And on an ICMP header.
icmp-CarriesReply : (frame : Frame) → valid_icmp frame ≡ some true → CarriesReply frame
unfolding valid_icmp
icmp-CarriesReply frame e =
    let (long, e₁) = pass (ltb frame.length 46) e in
    let (type, at_type, e₂) = next (get_elem? frame.bytes 34) _ e₁ in
    let (code, at_code, e₃) = next (get_elem? frame.bytes 35) _ e₂ in
    let (payload, at_payload, e₄) = next (read32 frame.bytes 42) _ e₃ in
    let (t, e₅) =
      pass (not (type == 0) || (not (code == 0) || not (ntohl payload == 0x1234_5678))) e₄ in
    let (a, b, c) = three-false (type == 0) (code == 0) (ntohl payload == 0x1234_5678) t in
    record {
      payload = payload;
      whole = passed frame.length 46 long;
      at_type = rw (← ==→eq type 0 a) at_type;
      at_code = rw (← ==→eq code 0 b) at_code;
      at_payload = at_payload;
      is_ours = ==→eq _ _ c;
    }

CarriesReply-icmp : (frame : Frame) → CarriesReply frame → valid_icmp frame ≡ some true
unfolding valid_icmp
CarriesReply-icmp frame c =
    rw (le→ltb frame.length 46 c.whole, c.at_type, c.at_code, c.at_payload, eq→== _ _ c.is_ours)
      refl

header_in_memory : (m : List ℕ) (hl : ℕ) → check_sum_ip m hl ≡ some 0 → 4 * hl ≤ length m
unfolding check_sum_ip
header_in_memory m hl e = elim (Bool-cases (ltb (length m) (2 * (hl * 2)))) [
  | inl short ↦ absurd (cc (sum_words_short (hl * 2) m 0 (ltb→lt _ _ short), e))
  | inr long ↦ omega (arith, passed (length m) (2 * (hl * 2)) long)
]

All-drop : (k : ℕ) (m : List ℕ) → All IsByte m → All IsByte (drop k m)
All-drop zero m h = h
All-drop (suc k) [] h = tt
All-drop (suc k) (x ∷ m) (h, hs) = All-drop k m hs

transport-carries :
    (frame : Frame) (p ip_len hl : ℕ)
    → (p ≡ 17) ⊎ (p ≡ 1)
    → valid_transport frame p ip_len hl ≡ some true
    → ((p ≡ 17) × CarriesUdp frame ip_len hl) ⊎ ((p ≡ 1) × CarriesReply frame)
unfolding valid_transport
transport-carries frame p ip_len hl (inl u) e =
    inl (u, udp-CarriesUdp frame ip_len hl (rw (valid_transport, u) at e))
transport-carries frame p ip_len hl (inr i) e =
    inr (i, icmp-CarriesReply frame (rw (valid_transport, i) at e))

carries-transport :
    (frame : Frame) (p ip_len hl : ℕ)
    → ((p ≡ 17) × CarriesUdp frame ip_len hl) ⊎ ((p ≡ 1) × CarriesReply frame)
    → ((p ≡ 17) ⊎ (p ≡ 1)) × (valid_transport frame p ip_len hl ≡ some true)
unfolding valid_transport
carries-transport frame p ip_len hl (inl (u, c)) = (inl u, rw u (CarriesUdp-udp frame ip_len hl c))
carries-transport frame p ip_len hl (inr (i, c)) = (inr i, rw i (CarriesReply-icmp frame c))

module _ (frame : Frame) (bytes : All IsByte frame.bytes) where
  is_long : (a : Accepted frame) → 14 < length frame.bytes
  is_long a = lt_of_get_elem? frame.bytes 14 a.version a.at_version

  Accepted-Exact : Accepted frame → Exact frame
  Accepted-Exact a =
      let hl = a.version % 16 in
      let m = drop 14 frame.bytes in
      let inside = header_in_memory m hl a.sums in
      let (some_sum, zero_sum) =
        (check_sum_ip-accepts m hl (All-drop 14 frame.bytes bytes) (omega arith) inside).0 a.sums in
      record {
        ether_type = a.ether_type;
        ip_len = a.ip_len;
        version = a.version;
        ip_p = a.ip_p;
        at_type = a.at_type;
        at_len = a.at_len;
        at_version = a.at_version;
        at_p = a.at_p;
        is_ip = a.is_ip;
        has_length = a.has_length;
        is_v4 = a.is_v4;
        in_memory = omega (arith, length-drop 14 frame.bytes, is_long a);
        some_sum = some_sum;
        zero_sum = zero_sum;
        carries = transport-carries frame a.ip_p a.ip_len hl a.is_known a.carries;
      }

  Exact-Accepted : Exact frame → Accepted frame
  Exact-Accepted x =
      let hl = x.version % 16 in
      let m = drop 14 frame.bytes in
      let (known, valid) = carries-transport frame x.ip_p x.ip_len hl x.carries in
      record {
        ether_type = x.ether_type;
        ip_len = x.ip_len;
        version = x.version;
        ip_p = x.ip_p;
        at_type = x.at_type;
        at_len = x.at_len;
        at_version = x.at_version;
        at_p = x.at_p;
        is_ip = x.is_ip;
        has_length = x.has_length;
        is_v4 = x.is_v4;
        sums =
            (check_sum_ip-accepts m hl (All-drop 14 frame.bytes bytes) (omega arith)
                (omega (arith, length-drop 14 frame.bytes, x.in_memory))).1
              (x.some_sum, x.zero_sum);
        is_known = known;
        carries = valid;
      }

  -- For bytes in memory, `is_valid_packet` accepts exactly the frames with the type of IP and the version
  -- 4, as long as the header says with the 14 bytes in front, whose IP header lies in memory as a whole
  -- and whose words add up to a positive multiple of 0xffff, and which carry either UDP, in a frame of 42
  -- bytes or more and with a length that fills the packet behind the header, or an echo reply with the
  -- type and the code 0 and the payload 0x12345678, in a frame of 46 bytes or more.
  pub is_valid_packet_iff : (is_valid_packet frame ≡ some true) ↔ Exact frame
  is_valid_packet_iff = (
    λ e. Accepted-Exact (is_valid_packet-Accepted frame e),
    λ x. Accepted-is_valid_packet frame (Exact-Accepted x),
  )
