-- ===== src/Node/Hops.antt =====
-- Where DSA and LSA packets go.
use resilient_overlay_networ.Base.{
  ℕ, ◌+◌, ◌%◌, ◌^◌, ◌≡◌, refl, List, [], ◌∷◌, none, some, Bool, ◌==◌, if◌then◌else◌, get_elem?,
}
use resilient_overlay_networ.Base.Maps.{find, insert}
use resilient_overlay_networ.Address.{ip_into_uint}
use resilient_overlay_networ.Wire.{Mac, Ip}
use resilient_overlay_networ.Wire.Order.{htons, htonl, le32}
use resilient_overlay_networ.Send.Accepted.{udp_frame, udp_packet-accepted}
use resilient_overlay_networ.Servers.{ServerInformation}
use resilient_overlay_networ.Ports.{take_for_self}
use resilient_overlay_networ.Node.{Node}
use resilient_overlay_networ.Node.Commands.{send_packet, send_udp_packet, hop_mac, next_hop}

module _ {R : Type 0} (n : Node R) (raw : Ip) (now : ℕ) (ip_dst : List ℕ) (is_dsa : Bool) where
  -- For a server with an id, the next hop is the one in the forwarding table of that server's entry, for
  -- DSA the one by round trip time, for LSA the one by loss rate. If it is the gateway, or a peer whose MAC
  -- address is known, one packet goes out to that MAC address, from `iface[1]` and under its address for
  -- the gateway, from `iface[0]` and under its address for a peer: to the server's address, from the
  -- node's next port to the port 1000 for DSA and 2000 for LSA, with twelve bytes behind the IP header.
  -- The next port is counted up, and the time is noted under the packet's port.
  pub send_packet-hop :
      (id hop : ℕ) (s : ServerInformation R) (mac : Mac)
      → find (ip_into_uint ip_dst) n.ip_to_id ≡ some id
      → get_elem? n.table.server_infoes id ≡ some s
      → (if is_dsa
          then s.forwarding_table.ip_next_hop_rtt.uint
          else s.forwarding_table.ip_next_hop_lost.uint)
        ≡ hop
      → (if hop == n.table.ip_gateway.uint then some n.mac_gateway else find hop n.ip_to_mac)
        ≡ some mac
      → let via = hop == n.table.ip_gateway.uint in
        send_packet n raw now ip_dst is_dsa
        ≡ some (
          record n {
            ports = record n.ports { src_port = n.ports.src_port + 1 };
            sent_times = insert (n.ports.src_port % 2 ^ 16) now n.sent_times;
          },
          (record {
            frame =
                udp_frame mac
                  (if via then n.ifc.mac1 else n.ifc.mac0)
                  (htonl (if via then n.ifc.ip1 else n.ifc.ip0))
                  (htonl (ip_into_uint ip_dst))
                  (record {
                    port_src = htons (n.ports.src_port % 2 ^ 16);
                    port_dst = htons (if is_dsa then 1000 else 2000);
                    length = htons 12;
                    udp_sum = 0;
                  })
                  4
                  (le32 (htonl 0x1234_5678) []);
            iface = if via then 1 else 0;
          })
              ∷ [],
        )
  unfolding send_packet send_udp_packet hop_mac take_for_self
  send_packet-hop id hop s mac known at to reached =
      rw
        (
          known,
          at,
          to,
          reached,
          (udp_packet-accepted n.ifc mac raw (ip_into_uint ip_dst) n.ports.src_port is_dsa
              (hop == n.table.ip_gateway.uint)).0,
        )
        refl

  -- A server that was learnt from another node has no id. For an address without one, in a table
  -- that is not empty, the packet takes the next hop of the first server of the table, whatever the
  -- forwarding table holds for its own, and the address gets the id 0.
  pub send_packet-no_id :
      (s : ServerInformation R)
      → find (ip_into_uint ip_dst) n.ip_to_id ≡ none
      → get_elem? n.table.server_infoes 0 ≡ some s
      → send_packet n raw now ip_dst is_dsa
        ≡ send_udp_packet
            (record n { ip_to_id = insert (ip_into_uint ip_dst) 0 n.ip_to_id })
            raw
            now
            (ip_into_uint ip_dst)
            (next_hop is_dsa s)
            is_dsa
  unfolding send_packet
  send_packet-no_id s unknown at = rw (unknown, at)

  -- For a server with an id, a next hop that is not the gateway and whose MAC address is not known
  -- makes the code read through a null pointer.
  pub send_packet-null :
      (id : ℕ) (s : ServerInformation R)
      → find (ip_into_uint ip_dst) n.ip_to_id ≡ some id
      → get_elem? n.table.server_infoes id ≡ some s
      → hop_mac n (next_hop is_dsa s) ≡ none
      → send_packet n raw now ip_dst is_dsa ≡ none
  unfolding send_packet send_udp_packet
  send_packet-null id s known at hop = rw (known, at, hop)
