-- ===== src/Node/Tests.antt =====
-- A node with two servers, one of them with an id.
use resilient_overlay_networ.Base.{ℕ, ◌≡◌, refl, List, [], ◌∷◌, some, true}
use resilient_overlay_networ.Base.Maps.{insert}
use resilient_overlay_networ.Address.{ip_into_uint, ip_into_uint_loop, char_digit}
use resilient_overlay_networ.Wire.{EthernetHdr, Ip, Udp}
use resilient_overlay_networ.Wire.Order.{htonl, htons, le32}
use resilient_overlay_networ.Ports.{initial_ports}
use resilient_overlay_networ.Send.Accepted.{udp_frame}
use resilient_overlay_networ.Send.Tests.{mac, ifaces, raw}
use resilient_overlay_networ.Servers.Tests.{Fraction, two_servers, server}
use resilient_overlay_networ.Node.{Node}
use resilient_overlay_networ.Node.Commands.{send_packet}
use resilient_overlay_networ.Node.Hops.{send_packet-hop}

abbrev node : Node Fraction
node = record {
  table = two_servers;
  ifc = ifaces;
  mac_gateway = mac 8;
  ip_to_mac = (0x0a000002, mac 9) ∷ [];
  ip_to_id = (10, 0) ∷ [];
  ports = initial_ports;
  sent_times = [];
}

-- 0.0.0.10 and 0.0.0.20.
abbrev ten : List ℕ
ten = b'0' ∷ b'.' ∷ b'0' ∷ b'.' ∷ b'0' ∷ b'.' ∷ b'1' ∷ b'0' ∷ []

abbrev twenty : List ℕ
twenty = b'0' ∷ b'.' ∷ b'0' ∷ b'.' ∷ b'0' ∷ b'.' ∷ b'2' ∷ b'0' ∷ []

send_packet-hop_example :
    send_packet node raw 77 ten true
    ≡ some (
      record node {
        ports = record initial_ports { src_port = 8001 };
        sent_times = insert 8000 77 [];
      },
      (record {
        frame =
            udp_frame
              (mac 8)
              (mac 2)
              (htonl 0xc0a80001)
              (htonl 10)
              (record {
                port_src = htons 8000;
                port_dst = htons 1000;
                length = htons 12;
                udp_sum = 0;
              })
              4
              (le32 (htonl 0x1234_5678) []);
        iface = 1;
      })
          ∷ [],
    )
unfolding ip_into_uint ip_into_uint_loop char_digit
send_packet-hop_example =
    send_packet-hop node raw 77 ten true 0 1 (server 10 7) (mac 8) refl refl refl refl

-- A packet of 10.0.0.2 from port 0x1234, and a reply to its translation.
abbrev pub request_ip : Ip
request_ip = record raw { ip_src = 0x0200000a; ip_hl = 5 }

abbrev pub request_udp : Udp
request_udp = record { port_src = 0x3412; port_dst = 0x8813; length = 0x0c00; udp_sum = 0 }

abbrev pub reply_udp : Udp
reply_udp = record { port_src = 0x8813; port_dst = 0x401f; length = 0x0c00; udp_sum = 0 }

abbrev pub reply_eth : EthernetHdr
reply_eth = record { ether_dhost = mac 2; ether_shost = mac 8; ether_type = 8 }

abbrev pub body : List ℕ
body = 1 ∷ 2 ∷ 3 ∷ 4 ∷ []
