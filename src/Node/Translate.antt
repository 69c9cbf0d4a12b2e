-- ===== src/Node/Translate.antt =====
-- The two address translations of `processFrame`. Both rewrite a copy of the packet: the Ethernet
-- addresses, one IP address, one UDP port, and the IP checksum; the UDP checksum stays.
use resilient_overlay_networ.Base.{ℕ, ◌%◌, ◌^◌, List, Option, some, ◌>>=◌}
use resilient_overlay_networ.Checksum.{check_sum_ip}
use resilient_overlay_networ.Wire.{
  Mac, EthernetHdr, Ip, Udp, Ifaces, eth_bytes, ip_bytes, udp_bytes,
}
use resilient_overlay_networ.Wire.Order.{htons, htonl, ntohs, ntohl}
use resilient_overlay_networ.Send.{Sent}
use resilient_overlay_networ.Ports.{Ports, take_for_nat}

-- `ip1->ip_sum = 0; ip1->ip_sum = check_sum_ip (ip1, ip1->ip_hl);` with what follows in memory.
unfoldable pub renew_sum : Ip → List ℕ → Option Ip
renew_sum ip rest = do
  sum ← check_sum_ip (ip_bytes (record ip { ip_sum = 0 }) rest) ip.ip_hl
  some (record ip { ip_sum = sum })

-- From a peer to the gateway: the node's own address and a fresh port stand in for the sender's.
unfoldable pub translate_out :
    Ifaces → Mac → Ports → EthernetHdr → Ip → Udp → List ℕ → ℕ → Option (Ports × Sent)
unfolding renew_sum
translate_out ifc mac_gateway ports eth ip udp payload length = do
  let udp1 = record udp { port_src = htons (ports.src_port % 2 ^ 16) }
  let eth1 = record eth { ether_shost = ifc.mac1; ether_dhost = mac_gateway }
  ip1 ← renew_sum (record ip { ip_src = htonl ifc.ip1 }) (udp_bytes udp1 payload)
  some (
    take_for_nat ports ip.ip_src udp.port_src,
    record {
      frame = record {
        length = length;
        bytes = eth_bytes eth1 (ip_bytes ip1 (udp_bytes udp1 payload));
      };
      iface = 1;
    },
  )

-- From the gateway back to the peer that the port belongs to.
unfoldable pub translate_in :
    Ifaces → Mac → ℕ → ℕ → EthernetHdr → Ip → Udp → List ℕ → ℕ → Option Sent
unfolding renew_sum
translate_in ifc mac port_ip port_src eth ip udp payload length = do
  let udp1 = record udp { port_dst = htons (ntohs port_src) }
  let eth1 = record eth { ether_shost = ifc.mac0; ether_dhost = mac }
  ip1 ← renew_sum (record ip { ip_dst = htonl (ntohl port_ip) }) (udp_bytes udp1 payload)
  some (record {
    frame = record {
      length = length;
      bytes = eth_bytes eth1 (ip_bytes ip1 (udp_bytes udp1 payload));
    };
    iface = 0;
  })
