-- ===== src/Wire.antt =====
-- The packet headers of user/sr_protocol.h and user/my_structs.h, and the functions of user/sm.cpp that
-- fill them in. A header field holds the number that the code stores in it, in network byte order; it
-- lies in memory with its low byte first.
pub mod Order
pub mod Network
pub mod Overlay
use resilient_overlay_networ.Base.{
  ℕ, ◌+◌, ◌-◌, ◌*◌, ◌/◌, ◌%◌, ◌^◌, List, [], ◌∷◌, ◌++◌, Option, none, some, Bool, true, false, ◌==◌,
  if◌then◌else◌, ◌>>=◌,
}
use resilient_overlay_networ.Checksum.{check_sum_ip, check_sum_icmp}
use Order.{htons, htonl, le16, le32}

-- The six bytes of an Ethernet address.
pub record Mac : Type 0 where
  pub b0 : ℕ
  pub b1 : ℕ
  pub b2 : ℕ
  pub b3 : ℕ
  pub b4 : ℕ
  pub b5 : ℕ

abbrev pub mac_bytes : Mac → List ℕ → List ℕ
mac_bytes m rest = m.b0 ∷ (m.b1 ∷ (m.b2 ∷ (m.b3 ∷ (m.b4 ∷ (m.b5 ∷ rest)))))

pub record EthernetHdr : Type 0 where
  pub ether_dhost : Mac
  pub ether_shost : Mac
  pub ether_type : ℕ

pub record Ip : Type 0 where
  pub ip_hl : ℕ
  pub ip_v : ℕ
  pub ip_tos : ℕ
  pub ip_len : ℕ
  pub ip_id : ℕ
  pub ip_off : ℕ
  pub ip_ttl : ℕ
  pub ip_p : ℕ
  pub ip_sum : ℕ
  pub ip_src : ℕ
  pub ip_dst : ℕ

pub record Udp : Type 0 where
  pub port_src : ℕ
  pub port_dst : ℕ
  pub length : ℕ
  pub udp_sum : ℕ

pub record Icmp : Type 0 where
  pub type : ℕ
  pub code : ℕ
  pub checksum : ℕ
  pub sequence_id : ℕ
  pub identifier : ℕ
  pub payload_data : ℕ

-- The headers in memory, in front of what follows them.
abbrev pub eth_bytes : EthernetHdr → List ℕ → List ℕ
eth_bytes e rest = mac_bytes e.ether_dhost (mac_bytes e.ether_shost (le16 e.ether_type rest))

abbrev pub ip_bytes : Ip → List ℕ → List ℕ
ip_bytes i rest =
    (i.ip_hl + 16 * i.ip_v)
    ∷ (i.ip_tos
        ∷ le16 i.ip_len (
            le16 i.ip_id (
              le16 i.ip_off
                (i.ip_ttl ∷ (i.ip_p ∷ le16 i.ip_sum (le32 i.ip_src (le32 i.ip_dst rest)))))))

abbrev pub udp_bytes : Udp → List ℕ → List ℕ
udp_bytes u rest = le16 u.port_src (le16 u.port_dst (le16 u.length (le16 u.udp_sum rest)))

abbrev pub icmp_bytes : Icmp → List ℕ → List ℕ
icmp_bytes i rest =
    i.type
    ∷ (i.code ∷ le16 i.checksum (le16 i.sequence_id (le16 i.identifier (le32 i.payload_data rest))))

-- The sizes that `sizeof` gives.
abbrev pub sizeof_eth : ℕ
sizeof_eth = 14

abbrev pub sizeof_ip : ℕ
sizeof_ip = 20

abbrev pub sizeof_udp : ℕ
sizeof_udp = 8

abbrev pub sizeof_icmp : ℕ
sizeof_icmp = 12

abbrev pub icmp_size : ℕ
icmp_size = sizeof_eth + sizeof_ip + sizeof_icmp

abbrev pub udp_size : ℕ
udp_size = sizeof_eth + sizeof_ip + sizeof_udp

-- A frame is a length and the memory from its pointer on.
pub record Frame : Type 0 where
  pub length : ℕ
  pub bytes : List ℕ

-- What the code reads of `iface[0]` and `iface[1]`.
pub record Ifaces : Type 0 where
  pub mac0 : Mac
  pub ip0 : ℕ
  pub mac1 : Mac
  pub ip1 : ℕ

-- The source address and the length; for an unknown protocol both stay what they were.
unfoldable pub set_ip_route : Ifaces → ℕ → ℕ → Bool → Bool → Ip → Ip
set_ip_route ifc ip_protocol advertise_data_size is_dsa_lsa is_self ip =
    let udp_len = htons ((udp_size - sizeof_eth + advertise_data_size) % 2 ^ 16) in
    if is_dsa_lsa
    then record ip { ip_src = htonl (if is_self then ifc.ip1 else ifc.ip0); ip_len = udp_len }
    else if ip_protocol == 1
    then record ip { ip_src = htonl ifc.ip1; ip_len = htons (sizeof_ip + sizeof_icmp) }
    else if ip_protocol == 17
    then record ip { ip_src = htonl ifc.ip0; ip_len = udp_len }
    else ip

-- The header, all but its checksum.
unfoldable pub fill_ip_header : Ifaces → ℕ → ℕ → ℕ → Bool → Bool → Ip → Ip
unfolding set_ip_route
fill_ip_header ifc dest_ip ip_protocol advertise_data_size is_dsa_lsa is_self ip =
    let ip' = set_ip_route ifc ip_protocol advertise_data_size is_dsa_lsa is_self (record ip {
      ip_v = 4;
      ip_hl = 5;
      ip_tos = 0;
      ip_id = htons 0;
      ip_off = htons 0;
      ip_ttl = 64;
      ip_p = ip_protocol % 256;
      ip_dst = htonl dest_ip;
    }) in
    record ip' { ip_sum = 0 }

unfoldable pub set_ip_header : Ifaces → ℕ → ℕ → ℕ → Bool → Bool → Ip → Option Ip
set_ip_header ifc dest_ip ip_protocol advertise_data_size is_dsa_lsa is_self ip = do
  let ip' = fill_ip_header ifc dest_ip ip_protocol advertise_data_size is_dsa_lsa is_self ip
  sum ← check_sum_ip (ip_bytes ip' []) ip'.ip_hl
  some (record ip' { ip_sum = sum })

unfoldable pub set_icmp_header_in_ping_packet : ℕ → Option Icmp
set_icmp_header_in_ping_packet sequence_id = do
  let icmp : Icmp = record {
    type = 8;
    code = 0;
    identifier = 0;
    sequence_id = htons sequence_id;
    payload_data = htonl 0x1234_5678;
    checksum = 0;
  }
  sum ← check_sum_icmp (icmp_bytes icmp [])
  some (record icmp { checksum = sum })
