-- ===== src/Wire/Overlay.antt =====
-- Struct pointers into a frame: the header that starts at a place in memory, and the memory behind it.
-- `none` is a header that does not lie in memory as a whole.
use resilient_overlay_networ.Base.{
  ℕ, ◌+◌, ◌*◌, ◌/◌, ◌%◌, ◌^◌, ◌<◌, ◌≡◌, List, ◌∷◌, Option, none, some, ◌>>=◌, arith,
}
use resilient_overlay_networ.Wire.{Mac, EthernetHdr, Ip, Udp, Icmp, eth_bytes, ip_bytes, udp_bytes}

abbrev pub get16 : ℕ → ℕ → ℕ
get16 a b = a + 256 * b

abbrev pub get32 : ℕ → ℕ → ℕ → ℕ → ℕ
get32 a b c d = a + 2 ^ 8 * b + 2 ^ 16 * c + 2 ^ 24 * d

unfoldable pub take_mac : List ℕ → Option (Mac × List ℕ)
take_mac (a ∷ b ∷ c ∷ d ∷ e ∷ f ∷ m) =
    some (record { b0 = a; b1 = b; b2 = c; b3 = d; b4 = e; b5 = f }, m)
take_mac _ = none

unfoldable pub take_16 : List ℕ → Option (ℕ × List ℕ)
take_16 (a ∷ b ∷ m) = some (get16 a b, m)
take_16 _ = none

unfoldable pub take_32 : List ℕ → Option (ℕ × List ℕ)
take_32 (a ∷ b ∷ c ∷ d ∷ m) = some (get32 a b c d, m)
take_32 _ = none

unfoldable pub take_8 : List ℕ → Option (ℕ × List ℕ)
take_8 (a ∷ m) = some (a, m)
take_8 _ = none

unfoldable pub take_eth : List ℕ → Option (EthernetHdr × List ℕ)
unfolding take_mac take_16
take_eth m = do
  (dhost, m₁) ← take_mac m
  (shost, m₂) ← take_mac m₁
  (type, m₃) ← take_16 m₂
  some (record { ether_dhost = dhost; ether_shost = shost; ether_type = type }, m₃)

unfoldable pub take_ip : List ℕ → Option (Ip × List ℕ)
unfolding take_8 take_16 take_32
take_ip m = do
  (first, m₁) ← take_8 m
  (tos, m₂) ← take_8 m₁
  (len, m₃) ← take_16 m₂
  (id, m₄) ← take_16 m₃
  (off, m₅) ← take_16 m₄
  (ttl, m₆) ← take_8 m₅
  (p, m₇) ← take_8 m₆
  (sum, m₈) ← take_16 m₇
  (src, m₉) ← take_32 m₈
  (dst, m₁₀) ← take_32 m₉
  some (
    record {
      ip_hl = first % 16;
      ip_v = first / 16;
      ip_tos = tos;
      ip_len = len;
      ip_id = id;
      ip_off = off;
      ip_ttl = ttl;
      ip_p = p;
      ip_sum = sum;
      ip_src = src;
      ip_dst = dst;
    },
    m₁₀,
  )

unfoldable pub take_udp : List ℕ → Option (Udp × List ℕ)
unfolding take_16
take_udp m = do
  (src, m₁) ← take_16 m
  (dst, m₂) ← take_16 m₁
  (len, m₃) ← take_16 m₂
  (sum, m₄) ← take_16 m₃
  some (record { port_src = src; port_dst = dst; length = len; udp_sum = sum }, m₄)

unfoldable pub take_icmp : List ℕ → Option (Icmp × List ℕ)
unfolding take_8 take_16 take_32
take_icmp m = do
  (type, m₁) ← take_8 m
  (code, m₂) ← take_8 m₁
  (sum, m₃) ← take_16 m₂
  (seq, m₄) ← take_16 m₃
  (id, m₅) ← take_16 m₄
  (payload, m₆) ← take_32 m₅
  some (
    record {
      type = type;
      code = code;
      checksum = sum;
      sequence_id = seq;
      identifier = id;
      payload_data = payload;
    },
    m₆,
  )

get16-le16 : (x : ℕ) → get16 (x % 256) (x / 256) ≡ x
get16-le16 x = omega arith

get32-le32 :
    (x : ℕ) → x < 2 ^ 32 → get32 (x % 256) (x / 2 ^ 8 % 256) (x / 2 ^ 16 % 256) (x / 2 ^ 24) ≡ x
get32-le32 x h = omega arith

pub take_eth-bytes : (e : EthernetHdr) (m : List ℕ) → take_eth (eth_bytes e m) ≡ some (e, m)
unfolding take_eth
take_eth-bytes e m = rw (get16-le16 e.ether_type)

-- The fields that are cut out of a byte, and the addresses, fit.
pub record IpInRange (i : Ip) : Type 0 where
  pub hl_lt : i.ip_hl < 16
  pub src_lt : i.ip_src < 2 ^ 32
  pub dst_lt : i.ip_dst < 2 ^ 32

pub take_ip-bytes : (i : Ip) (m : List ℕ) → IpInRange i → take_ip (ip_bytes i m) ≡ some (i, m)
unfolding take_ip
take_ip-bytes i m h =
    let e₁ : (i.ip_hl + 16 * i.ip_v) % 16 ≡ i.ip_hl = omega (arith, h.hl_lt) in
    let e₂ : (i.ip_hl + 16 * i.ip_v) / 16 ≡ i.ip_v = omega (arith, h.hl_lt) in
    rw (
      e₁,
      e₂,
      get16-le16 i.ip_len,
      get16-le16 i.ip_id,
      get16-le16 i.ip_off,
      get16-le16 i.ip_sum,
      get32-le32 i.ip_src h.src_lt,
      get32-le32 i.ip_dst h.dst_lt,
    )

pub take_udp-bytes : (u : Udp) (m : List ℕ) → take_udp (udp_bytes u m) ≡ some (u, m)
unfolding take_udp
take_udp-bytes u m =
    rw (get16-le16 u.port_src, get16-le16 u.port_dst, get16-le16 u.length, get16-le16 u.udp_sum)
