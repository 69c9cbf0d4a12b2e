-- ===== src/Send/Fields.antt =====
-- The port fields of what a step sends, as they lie in the frame behind the Ethernet header and an IP
-- header of five words.
use resilient_overlay_networ.Base.{
  ℕ, ◌%◌, ◌^◌, ◌≡◌, ap, List, [], ◌∷◌, Option, none, some, Bool, arith, bind_some, if◌then◌else◌,
}
use resilient_overlay_networ.Wire.{
  Mac, EthernetHdr, Ip, Udp, Ifaces, eth_bytes, ip_bytes, udp_bytes, set_ip_header,
}
use resilient_overlay_networ.Wire.Order.{htons, htonl, le32, read16}
use resilient_overlay_networ.Send.{Sent, eth_hdr, dsa_lsa_udp, udp_packet}
use resilient_overlay_networ.Servers.Index.{some-eq}

-- The number in the two bytes at `i` of the one frame that is sent.
unfoldable pub sent_field : ℕ → List Sent → Option ℕ
sent_field i [] = none
sent_field i (s ∷ []) = read16 s.frame.bytes i
sent_field i (s ∷ t ∷ rest) = none

abbrev pub source_port : List Sent → Option ℕ
source_port sents = sent_field 34 sents

abbrev pub target_port : List Sent → Option ℕ
target_port sents = sent_field 36 sents

pub sent_field-source_port :
    (eth : EthernetHdr) (ip : Ip) (udp : Udp) (payload : List ℕ) (size iface : ℕ)
    → source_port (
        (record {
          frame = record {
            length = size;
            bytes = eth_bytes eth (ip_bytes ip (udp_bytes udp payload));
          };
          iface = iface;
        })
        ∷ [])
      ≡ some udp.port_src
unfolding sent_field read16
sent_field-source_port eth ip udp payload size iface = ap some (omega arith)

pub sent_field-target_port :
    (eth : EthernetHdr) (ip : Ip) (udp : Udp) (payload : List ℕ) (size iface : ℕ)
    → target_port (
        (record {
          frame = record {
            length = size;
            bytes = eth_bytes eth (ip_bytes ip (udp_bytes udp payload));
          };
          iface = iface;
        })
        ∷ [])
      ≡ some udp.port_dst
unfolding sent_field read16
sent_field-target_port eth ip udp payload size iface = ap some (omega arith)

-- The ports of a DSA or LSA packet.
pub udp_packet-ports :
    (ifc : Ifaces) (mac : Mac) (raw : Ip) (ip_dst src_port : ℕ) (is_dsa is_self : Bool)
    (sent : Sent)
    → udp_packet ifc mac raw ip_dst src_port is_dsa is_self ≡ some sent
    → (source_port (sent ∷ []) ≡ some (htons (src_port % 2 ^ 16)))
      × (target_port (sent ∷ []) ≡ some (htons (if is_dsa then 1000 else 2000)))
unfolding udp_packet
udp_packet-ports ifc mac raw ip_dst src_port is_dsa is_self sent e =
    let (ip, at, e') = bind_some (set_ip_header ifc ip_dst 17 4 Bool.true is_self raw) _ e in
    let eth = eth_hdr mac (if is_self then ifc.mac1 else ifc.mac0) in
    let udp = dsa_lsa_udp src_port is_dsa in
    let payload = le32 (htonl 0x1234_5678) [] in
    let iface = if is_self then 1 else 0 in
    let same = some-eq e' in
    (
      rw (← same) (sent_field-source_port eth ip udp payload 46 iface),
      rw (← same) (sent_field-target_port eth ip udp payload 46 iface),
    )
