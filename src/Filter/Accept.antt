-- ===== src/Filter/Accept.antt =====
-- What a frame that `is_valid_packet` accepts looks like.
use resilient_overlay_networ.Base.{
  ℕ, ◌+◌, ◌/◌, ◌%◌, ◌≤◌, ◌≡◌, ◌⊎◌, refl, ap, ◌∙◌, Option, none, some, Bool, true, false, not, ◌==◌,
  ◌||◌, ltb, ◌>>=◌, get_elem?, drop, arith, ==→eq, eq→==, le→ltb, eq→==, le→ltb,
}
use resilient_overlay_networ.Checksum.{check_sum_ip}
use resilient_overlay_networ.Wire.{Frame}
use resilient_overlay_networ.Wire.Order.{ntohs, read16}
use resilient_overlay_networ.Filter.{
  is_valid_packet, valid_transport, valid_udp, valid_icmp, reject_if,
}

-- The fields of an accepted frame, as they lie in memory.
pub record Accepted (frame : Frame) : Type 0 where
  pub ether_type : ℕ
  pub ip_len : ℕ
  pub version : ℕ
  pub ip_p : ℕ
  pub at_type : read16 frame.bytes 12 ≡ some ether_type
  pub at_len : read16 frame.bytes 16 ≡ some ip_len
  pub at_version : get_elem? frame.bytes 14 ≡ some version
  pub at_p : get_elem? frame.bytes 23 ≡ some ip_p
  pub is_ip : ntohs ether_type ≡ 0x800
  pub has_length : frame.length ≡ ntohs ip_len + 14
  pub is_v4 : version / 16 ≡ 4
  pub sums : check_sum_ip (drop 14 frame.bytes) (version % 16) ≡ some 0
  pub is_known : (ip_p ≡ 17) ⊎ (ip_p ≡ 1)
  pub carries : valid_transport frame ip_p ip_len (version % 16) ≡ some true

pub pass : (b : Bool) {k : Option Bool} → reject_if b k ≡ some true → (b ≡ false) × (k ≡ some true)
pass true e = cc
pass false e = (refl, e)

pub next :
    (o : Option ℕ) (f : ℕ → Option Bool)
    → (o >>= f) ≡ some true
    → (a : ℕ) × (o ≡ some a) × (f a ≡ some true)
next none f e = cc
next (some a) f e = (a, refl, e)

pub not-false : (b : Bool) → not b ≡ false → b ≡ true
not-false true e = refl
not-false false e = cc

is_udp_or_icmp : (p : ℕ) → not (p == 17 || p == 1) ≡ false → (p ≡ 17) ⊎ (p ≡ 1)
is_udp_or_icmp p e = ground arith

-- An accepted frame is an IPv4 frame of the length that its header says, its header adds up to zero
-- with its checksum, and it carries UDP or ICMP that passes the tests for these.
pub is_valid_packet-Accepted : (frame : Frame) → is_valid_packet frame ≡ some true → Accepted frame
unfolding is_valid_packet
is_valid_packet-Accepted frame e =
    let (_, e₁) = pass (ltb frame.length 14) e in
    let (ether_type, at_type, e₂) = next (read16 frame.bytes 12) _ e₁ in
    let (t₂, e₃) = pass (not (ntohs ether_type == 0x800)) e₂ in
    let (_, e₄) = pass (ltb frame.length 28) e₃ in
    let (ip_len, at_len, e₅) = next (read16 frame.bytes 16) _ e₄ in
    let (t₅, e₆) = pass (not (frame.length == ntohs ip_len + 14)) e₅ in
    let (version, at_version, e₇) = next (get_elem? frame.bytes 14) _ e₆ in
    let (t₇, e₈) = pass (not (version / 16 == 4)) e₇ in
    let (sum, at_sum, e₉) = next (check_sum_ip (drop 14 frame.bytes) (version % 16)) _ e₈ in
    let (t₉, e₁₀) = pass (not (sum == 0)) e₉ in
    let (ip_p, at_p, e₁₁) = next (get_elem? frame.bytes 23) _ e₁₀ in
    let (t₁₁, e₁₂) = pass (not (ip_p == 17 || ip_p == 1)) e₁₁ in
    record {
      ether_type = ether_type;
      ip_len = ip_len;
      version = version;
      ip_p = ip_p;
      at_type = at_type;
      at_len = at_len;
      at_version = at_version;
      at_p = at_p;
      is_ip = ==→eq _ _ (not-false _ t₂);
      has_length = ==→eq _ _ (not-false _ t₅);
      is_v4 = ==→eq _ _ (not-false _ t₇);
      sums = at_sum ∙ ap some (==→eq _ _ (not-false _ t₉));
      is_known = is_udp_or_icmp ip_p t₁₁;
      carries = e₁₂;
    }

-- Whatever passes the transport tests is long enough for the header that is read.
pub transport_length :
    (frame : Frame) (ip_p ip_len ip_hl : ℕ)
    → (ip_p ≡ 17) ⊎ (ip_p ≡ 1)
    → valid_transport frame ip_p ip_len ip_hl ≡ some true
    → 42 ≤ frame.length
unfolding valid_transport valid_udp valid_icmp
transport_length frame ip_p ip_len ip_hl known e = ground arith

known : (p : ℕ) → (p ≡ 17) ⊎ (p ≡ 1) → not (p == 17 || p == 1) ≡ false
known p h = ground arith

-- The tests of `is_valid_packet` reject nothing else.
pub Accepted-is_valid_packet : (frame : Frame) → Accepted frame → is_valid_packet frame ≡ some true
unfolding is_valid_packet
Accepted-is_valid_packet frame a =
    let long = transport_length frame a.ip_p a.ip_len (a.version % 16) a.is_known a.carries in
    rw
      (
        le→ltb frame.length 14 (omega arith),
        a.at_type,
        eq→== _ _ a.is_ip,
        le→ltb frame.length 28 (omega arith),
        a.at_len,
        eq→== _ _ a.has_length,
        a.at_version,
        eq→== _ _ a.is_v4,
        a.sums,
        a.at_p,
        known a.ip_p a.is_known,
      )
      a.carries
