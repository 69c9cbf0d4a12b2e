-- ===== src/Send.antt =====
-- The frames that user/sm.cpp builds: `send_icmp_packet`, `send_advertise_packet` and
-- `send_udp_packet`, without the state that the callers keep. `raw` is what the fresh memory for the IP
-- header holds before it is filled in.
pub mod Frames
pub mod Fields
pub mod Accepted
pub mod Tests
use resilient_overlay_networ.Base.{
  ℕ, ◌+◌, ◌%◌, ◌^◌, List, [], Option, some, Bool, if◌then◌else◌, ◌>>=◌, take,
}
use resilient_overlay_networ.Wire.{
  Mac, EthernetHdr, Ip, Udp, Icmp, Frame, Ifaces, eth_bytes, ip_bytes, udp_bytes, icmp_bytes,
  sizeof_udp, udp_size, icmp_size, set_ip_header, set_icmp_header_in_ping_packet,
}
use resilient_overlay_networ.Wire.Order.{htons, htonl, le32}

-- A call `sendFrame (frame, iface)`.
pub record Sent : Type 0 where
  pub frame : Frame
  pub iface : ℕ

abbrev pub eth_hdr : Mac → Mac → EthernetHdr
eth_hdr dst src = record { ether_dhost = dst; ether_shost = src; ether_type = htons 0x800 }

-- The echo request for a server, to the gateway.
unfoldable pub icmp_packet : Ifaces → Mac → Ip → ℕ → ℕ → Option Sent
icmp_packet ifc mac_gateway raw dest_ip sequence_id = do
  ip ← set_ip_header ifc dest_ip 1 0 Bool.false Bool.false raw
  icmp ← set_icmp_header_in_ping_packet sequence_id
  some (record {
    frame = record {
      length = icmp_size;
      bytes = eth_bytes (eth_hdr mac_gateway ifc.mac1) (ip_bytes ip (icmp_bytes icmp []));
    };
    iface = 1;
  })

unfoldable pub send_advertise_packet : Ifaces → Ip → ℕ → Mac → List ℕ → ℕ → Option Sent
send_advertise_packet ifc raw ip_dst mac_dst advertise_data advertise_data_size = do
  ip ← set_ip_header ifc ip_dst 17 advertise_data_size Bool.false Bool.false raw
  let udp : Udp = record {
    length = htons ((sizeof_udp + advertise_data_size) % 2 ^ 16);
    port_dst = htons 5000;
    port_src = htons 5000;
    udp_sum = 0;
  }
  some (record {
    frame = record {
      length = advertise_data_size + udp_size;
      bytes =
          eth_bytes (eth_hdr mac_dst ifc.mac0)
            (ip_bytes ip (udp_bytes udp (take advertise_data_size advertise_data)));
    };
    iface = 0;
  })

-- The header of a DSA or LSA packet from port `src_port`.
abbrev pub dsa_lsa_udp : ℕ → Bool → Udp
dsa_lsa_udp src_port is_dsa = record {
  length = htons (sizeof_udp + 4);
  port_dst = htons (if is_dsa then 1000 else 2000);
  port_src = htons (src_port % 2 ^ 16);
  udp_sum = 0;
}

-- `is_self` says that the next hop is the gateway: the packet leaves by `iface[1]` under its address.
-- Else it goes to a peer through `iface[0]`.
unfoldable pub udp_packet : Ifaces → Mac → Ip → ℕ → ℕ → Bool → Bool → Option Sent
udp_packet ifc mac_dst raw ip_dst src_port is_dsa is_self = do
  ip ← set_ip_header ifc ip_dst 17 4 Bool.true is_self raw
  some (record {
    frame = record {
      length = 4 + udp_size;
      bytes =
          eth_bytes (eth_hdr mac_dst (if is_self then ifc.mac1 else ifc.mac0))
            (ip_bytes ip (udp_bytes (dsa_lsa_udp src_port is_dsa) (le32 (htonl 0x1234_5678) [])));
    };
    iface = if is_self then 1 else 0;
  })
