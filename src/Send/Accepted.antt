-- ===== src/Send/Accepted.antt =====
-- The receiving side of what the program sends: `is_valid_packet` on these frames.
use resilient_overlay_networ.Base.{
  ℕ, ◌+◌, ◌-◌, ◌*◌, ◌/◌, ◌%◌, ◌^◌, ◌≤◌, ◌<◌, ◌≡◌, ◌↔◌, refl, ap, inl, List, [], ◌∷◌, some, Bool,
  true, if◌then◌else◌, arith, length, take, All, eq→==, le→ltb,
}
use resilient_overlay_networ.Checksum.{check_sum_ip}
use resilient_overlay_networ.Checksum.Verify.{IsByte, check_sum_ip-sent}
use resilient_overlay_networ.Wire.{Mac, Ip, Udp, Frame, Ifaces, eth_bytes, ip_bytes, udp_bytes}
use resilient_overlay_networ.Wire.Order.{
  htons, htonl, ntohs, read16, le32, htons-lt, htonl-lt, ntohs-htons,
}
use resilient_overlay_networ.Filter.{is_valid_packet, valid_transport, valid_udp}
use resilient_overlay_networ.Filter.Accept.{
  Accepted, is_valid_packet-Accepted, Accepted-is_valid_packet,
}
use resilient_overlay_networ.Send.{eth_hdr, send_advertise_packet, udp_packet, dsa_lsa_udp}
use resilient_overlay_networ.Send.Frames.{
  sent_header, header_total, set_ip_header-advert, set_ip_header-dsa,
}

-- One round of carries is enough for a sum of words.
abbrev pub FoldsOnce : ℕ → Type 0
FoldsOnce total = total / 2 ^ 16 + total % 2 ^ 16 < 2 ^ 16

-- A frame around an UDP packet of `size` bytes with an address pair.
abbrev pub udp_frame : Mac → Mac → ℕ → ℕ → Udp → ℕ → List ℕ → Frame
udp_frame dst src ip_src ip_dst udp size payload = record {
  length = size + 42;
  bytes =
      eth_bytes (eth_hdr dst src)
        (ip_bytes (sent_header 17 (htons (28 + size)) ip_src ip_dst) (udp_bytes udp payload));
}

read16-le16 : (x : ℕ) → some (x % 256 + 256 * (x / 256)) ≡ some x
read16-le16 x = ap some (omega arith)

pub All-le32 : (x : ℕ) (rest : List ℕ) → x < 2 ^ 32 → All IsByte rest → All IsByte (le32 x rest)
All-le32 x rest h r = (omega arith, (omega arith, (omega arith, (omega arith, r))))

-- The header that `set_ip_header` fills in adds up to zero exactly when one round of carries is enough.
header_sums :
    (p len ip_src ip_dst : ℕ) (rest : List ℕ)
    → p < 256
    → len < 2 ^ 16
    → ip_src < 2 ^ 32
    → ip_dst < 2 ^ 32
    → All IsByte rest
    → (check_sum_ip (ip_bytes (sent_header p len ip_src ip_dst) rest) 5 ≡ some 0)
      ↔ FoldsOnce (header_total p len ip_src ip_dst)
header_sums p len ip_src ip_dst rest hp hl hs hd hr =
    (check_sum_ip-sent (69 ∷ 0 ∷ len % 256 ∷ len / 256 ∷ 0 ∷ 0 ∷ 0 ∷ 0 ∷ 64 ∷ p ∷ [])
      (le32 ip_src (le32 ip_dst rest)) 5 5 (omega arith)
      (All-le32 ip_src (le32 ip_dst rest) hs (All-le32 ip_dst rest hd hr)) refl (omega arith)
      (omega arith) (omega arith)).1

some-eq : {a b : ℕ} → some a ≡ some b → a ≡ b
some-eq e = cc

udp_passes :
    (frame : Frame) (len udp_len : ℕ)
    → 42 ≤ frame.length
    → read16 frame.bytes 38 ≡ some udp_len
    → ntohs udp_len + 20 ≡ ntohs len
    → valid_transport frame 17 len 5 ≡ some true
unfolding valid_transport valid_udp
udp_passes frame len udp_len h at_len e = rw (le→ltb frame.length 42 h, at_len, eq→== _ _ e)

udp_frame-Accepted :
    (dst src : Mac) (ip_src ip_dst : ℕ) (udp : Udp) (size : ℕ) (payload : List ℕ)
    → size < 2 ^ 16 - 28
    → ntohs udp.length ≡ 8 + size
    → check_sum_ip
        (ip_bytes (sent_header 17 (htons (28 + size)) ip_src ip_dst) (udp_bytes udp payload))
        5
      ≡ some 0
    → Accepted (udp_frame dst src ip_src ip_dst udp size payload)
unfolding read16
udp_frame-Accepted dst src ip_src ip_dst udp size payload h hu sums =
    let len = ntohs-htons (28 + size) (omega arith) in
    record {
      ether_type = htons 0x800;
      ip_len = htons (28 + size);
      version = 69;
      ip_p = 17;
      at_type = read16-le16 (htons 0x800);
      at_len = read16-le16 (htons (28 + size));
      at_version = refl;
      at_p = refl;
      is_ip = ntohs-htons 0x800 (omega arith);
      has_length = omega (arith, len);
      is_v4 = refl;
      sums = sums;
      is_known = inl refl;
      carries =
          udp_passes (udp_frame dst src ip_src ip_dst udp size payload) (htons (28 + size))
            udp.length (omega arith) (read16-le16 udp.length) (omega (arith, len, hu));
    }

-- A frame with a header of `set_ip_header` around an UDP packet of bytes passes `is_valid_packet`
-- exactly when one round of carries is enough for the words of its IP header: for 32-bit addresses,
-- a payload of at most 65507 bytes by its size, and a length field that says that size and the
-- header's.
pub is_valid_packet-udp_frame :
    (dst src : Mac) (ip_src ip_dst : ℕ) (udp : Udp) (size : ℕ) (payload : List ℕ)
    → ip_src < 2 ^ 32
    → ip_dst < 2 ^ 32
    → All IsByte (udp_bytes udp payload)
    → size < 2 ^ 16 - 28
    → ntohs udp.length ≡ 8 + size
    → (is_valid_packet (udp_frame dst src ip_src ip_dst udp size payload) ≡ some true)
      ↔ FoldsOnce (header_total 17 (htons (28 + size)) ip_src ip_dst)
is_valid_packet-udp_frame dst src ip_src ip_dst udp size payload hs hd hb h hu =
    let sums =
      header_sums 17 (htons (28 + size)) ip_src ip_dst (udp_bytes udp payload) (omega arith)
        (omega (arith, htons-lt (28 + size))) hs hd hb in
    (
      λ e.
          let a = is_valid_packet-Accepted _ e in
          let v : 69 ≡ a.version = some-eq a.at_version in sums.0 (rw (← v) at a.sums),
      λ f.
          Accepted-is_valid_packet _
            (udp_frame-Accepted dst src ip_src ip_dst udp size payload h hu (sums.1 f)),
    )

take-length : (xs : List ℕ) → take (length xs) xs ≡ xs
take-length [] = refl
take-length (x ∷ xs) = ap (◌∷◌ x) (take-length xs)

advert_udp : ℕ → Udp
advert_udp size = record {
  length = htons (8 + size);
  port_dst = htons 5000;
  port_src = htons 5000;
  udp_sum = 0;
}

advert_udp-bytes :
    (size : ℕ) (payload : List ℕ)
    → All IsByte payload
    → All IsByte (udp_bytes (advert_udp size) payload)
unfolding advert_udp
advert_udp-bytes size payload h =
    let port = htons-lt 5000 in
    let len = htons-lt (8 + size) in
    (
      omega arith,
      (
        omega arith,
        (omega arith, (omega arith, (omega arith, (omega arith, (omega arith, (omega arith, h)))))),
      ),
    )

-- An advertisement of up to 65507 bytes is sent on `iface[0]`, from that interface's address and
-- MAC to the given ones, as an UDP packet for port 5000 whose payload is the data; a receiver's
-- `is_valid_packet` accepts it exactly when one round of carries is enough for its IP header.
pub send_advertise_packet-accepted :
    (ifc : Ifaces) (raw : Ip) (ip_dst : ℕ) (mac_dst : Mac) (payload : List ℕ)
    → All IsByte payload
    → length payload < 2 ^ 16 - 28
    → let size = length payload in
      let f =
        udp_frame mac_dst ifc.mac0
          (htonl ifc.ip0)
          (htonl ip_dst)
          (record {
            length = htons (8 + size);
            port_dst = htons 5000;
            port_src = htons 5000;
            udp_sum = 0;
          })
          size
          payload in
      (send_advertise_packet ifc raw ip_dst mac_dst payload size
        ≡ some (record { frame = f; iface = 0 }))
      × ((is_valid_packet f ≡ some true)
          ↔ FoldsOnce (header_total 17 (htons (28 + size)) (htonl ifc.ip0) (htonl ip_dst)))
unfolding send_advertise_packet advert_udp
send_advertise_packet-accepted ifc raw ip_dst mac_dst payload hb h =
    let size = length payload in
    let e₁ : (28 + size) % 2 ^ 16 ≡ 28 + size = omega arith in
    let e₂ : (8 + size) % 2 ^ 16 ≡ 8 + size = omega arith in
    (
      rw (set_ip_header-advert ifc ip_dst raw size, e₁, e₂, take-length payload),
      is_valid_packet-udp_frame mac_dst ifc.mac0 (htonl ifc.ip0) (htonl ip_dst) (advert_udp size)
          size payload (htonl-lt ifc.ip0) (htonl-lt ip_dst) (advert_udp-bytes size payload hb) h
          (ntohs-htons (8 + size) (omega arith)),
    )

dsa_lsa-bytes :
    (src_port : ℕ) (is_dsa : Bool)
    → All IsByte (udp_bytes (dsa_lsa_udp src_port is_dsa) (le32 (htonl 0x1234_5678) []))
dsa_lsa-bytes src_port is_dsa =
    let p = htons-lt (src_port % 2 ^ 16) in
    let d = htons-lt (if is_dsa then 1000 else 2000) in
    let len = htons-lt 12 in
    (
      omega arith,
      (
        omega arith,
        (
          omega arith,
          (
            omega arith,
            (
              omega arith,
              (
                omega arith,
                (
                  omega arith,
                  (omega arith, All-le32 (htonl 0x1234_5678) [] (htonl-lt 0x1234_5678) tt),
                ),
              ),
            ),
          ),
        ),
      ),
    )

-- A DSA or LSA packet goes out with the gateway side's address and MAC on `iface[1]` when the next
-- hop is the gateway, and with those of `iface[0]` on that interface otherwise; a receiver's
-- `is_valid_packet` accepts it exactly when one round of carries is enough for its IP header.
pub udp_packet-accepted :
    (ifc : Ifaces) (mac_dst : Mac) (raw : Ip) (ip_dst src_port : ℕ) (is_dsa is_self : Bool)
    → let f =
        udp_frame mac_dst
          (if is_self then ifc.mac1 else ifc.mac0)
          (htonl (if is_self then ifc.ip1 else ifc.ip0))
          (htonl ip_dst)
          (dsa_lsa_udp src_port is_dsa)
          4
          (le32 (htonl 0x1234_5678) []) in
      (udp_packet ifc mac_dst raw ip_dst src_port is_dsa is_self
        ≡ some (record { frame = f; iface = if is_self then 1 else 0 }))
      × ((is_valid_packet f ≡ some true)
          ↔ FoldsOnce (
              header_total 17
                (htons 32)
                (htonl (if is_self then ifc.ip1 else ifc.ip0))
                (htonl ip_dst)))
unfolding udp_packet
udp_packet-accepted ifc mac_dst raw ip_dst src_port is_dsa is_self = (
  rw (set_ip_header-dsa ifc ip_dst raw 4 is_self),
  is_valid_packet-udp_frame mac_dst (if is_self then ifc.mac1 else ifc.mac0)
      (htonl (if is_self then ifc.ip1 else ifc.ip0)) (htonl ip_dst) (dsa_lsa_udp src_port is_dsa) 4
      _ (htonl-lt _) (htonl-lt ip_dst) (dsa_lsa-bytes src_port is_dsa) (omega arith)
      (ntohs-htons 12 (omega arith)),
)
