-- ===== src/Node/Commands.antt =====
-- The commands of `run`: `ping`, `advertise`, `dsa` and `lsa`. `stats`, `dtable` and `ltable` print, as
-- Node/Console has it, and change nothing. The clock and the contents of fresh memory are arguments.
use resilient_overlay_networ.Base.{
  ℕ, zero, suc, ◌%◌, ◌^◌, List, [], ◌∷◌, Option, none, some, Bool, true, false, ◌==◌, if◌then◌else◌,
  ◌>>=◌, get_elem?, length,
}
use resilient_overlay_networ.Base.Maps.{find, insert}
use resilient_overlay_networ.Base.Texts.{text_eq}
use resilient_overlay_networ.Address.{ip_into_uint}
use resilient_overlay_networ.Wire.{Mac, Ip, Ifaces}
use resilient_overlay_networ.Send.{Sent, icmp_packet, send_advertise_packet, udp_packet}
use resilient_overlay_networ.Servers.{
  IpInfo, ServerInformation, Rates, Table, fill_forwarding_table, reset_learning_table,
}
use resilient_overlay_networ.Servers.Ping.{update_server_information, check_connections_is_alive}
use resilient_overlay_networ.Adverts.{advertise_data}
use resilient_overlay_networ.Ports.{take_for_self}
use resilient_overlay_networ.Node.{Node, touch_of}

abbrev pub broadcast_mac : Mac
broadcast_mac = record { b0 = 255; b1 = 255; b2 = 255; b3 = 255; b4 = 255; b5 = 255 }

-- "255.255.255.255"
abbrev pub broadcast_text : List ℕ
broadcast_text =
    b'2' ∷ b'5' ∷ b'5' ∷ b'.' ∷ b'2' ∷ b'5' ∷ b'5' ∷ b'.' ∷ b'2' ∷ b'5' ∷ b'5' ∷ b'.' ∷ b'2' ∷ b'5'
    ∷ b'5' ∷ []

abbrev pub id_or_zero : Option ℕ → ℕ
id_or_zero none = 0
id_or_zero (some id) = id

-- The server id for an address: `ip_to_id[…]`, which is 0 for an address that is not in the map.
abbrev pub id_of : List (ℕ × ℕ) → ℕ → ℕ
id_of m ip = id_or_zero (find ip m)

-- `ip_to_id[…]` makes an entry where there is none.
abbrev pub touch_id : ℕ → List (ℕ × ℕ) → List (ℕ × ℕ)
touch_id k m = touch_of (find k m) k m

module _ {R : Type 0} where
  -- The loop of `is_server_valid`.
  unfoldable pub server_loop : ℕ → List (ServerInformation R) → List ℕ → Bool
  unfolding text_eq
  server_loop zero xs ip = false
  server_loop (suc n) [] ip = false
  server_loop (suc n) (x ∷ xs) ip =
      let rest = server_loop n xs ip in if text_eq x.ip.str ip then true else rest

  unfoldable pub is_server_valid : Table R → List ℕ → Bool
  unfolding server_loop
  is_server_valid t ip = server_loop t.number_of_all_servers t.server_infoes ip

  -- Whether the next hop of a DSA or LSA packet is the gateway, and the MAC address that it has; a next
  -- hop whose MAC address is not known is a null pointer.
  unfoldable pub hop_mac : Node R → ℕ → Option Mac
  hop_mac n next_hop =
      if next_hop == n.table.ip_gateway.uint then some n.mac_gateway else find next_hop n.ip_to_mac

  unfoldable pub send_udp_packet : Node R → Ip → ℕ → ℕ → ℕ → Bool → Option (Node R × List Sent)
  send_udp_packet n raw now ip_dst next_hop is_dsa = do
    mac ← hop_mac n next_hop
    sent ←
        udp_packet n.ifc mac raw ip_dst n.ports.src_port is_dsa
          (next_hop == n.table.ip_gateway.uint)
    some (
      record n {
        ports = take_for_self n.ports;
        sent_times = insert (n.ports.src_port % 2 ^ 16) now n.sent_times;
      },
      sent ∷ [],
    )

  abbrev pub next_hop : Bool → ServerInformation R → ℕ
  next_hop is_dsa s =
      if is_dsa
      then s.forwarding_table.ip_next_hop_rtt.uint
      else s.forwarding_table.ip_next_hop_lost.uint

  -- `send_dsa_packet` and `send_lsa_packet`.
  unfoldable pub send_packet : Node R → Ip → ℕ → List ℕ → Bool → Option (Node R × List Sent)
  send_packet n raw now ip_dst is_dsa = do
    let ip = ip_into_uint ip_dst
    server ← get_elem? n.table.server_infoes (id_of n.ip_to_id ip)
    send_udp_packet (record n { ip_to_id = touch_id ip n.ip_to_id }) raw now ip
        (next_hop is_dsa server) is_dsa

module _ {R : Type 0} (r : Rates R) where
  -- `send_icmp_packet` for a server.
  unfoldable pub send_icmp_packet :
      Ifaces → Mac → IpInfo → Ip → ℕ → ServerInformation R → Option (ServerInformation R × Sent)
  send_icmp_packet ifc mac_gateway gateway raw now s = do
    sent ← icmp_packet ifc mac_gateway raw s.ip.uint s.sequence_id
    some (update_server_information r gateway now s, sent)

  -- The loop of `ping`; the clock is asked once for each server, by the rounds that are left.
  unfoldable pub ping_loop :
      ℕ
      → Ifaces
      → Mac
      → IpInfo
      → Ip
      → (ℕ → ℕ)
      → List (ServerInformation R)
      → Option (List (ServerInformation R) × List Sent)
  unfolding send_icmp_packet
  ping_loop zero ifc mac_gateway gateway raw clock xs = some (xs, [])
  ping_loop (suc n) ifc mac_gateway gateway raw clock [] = none
  ping_loop (suc n) ifc mac_gateway gateway raw clock (x ∷ xs) = do
    (x', sent) ← send_icmp_packet ifc mac_gateway gateway raw (clock n) x
    (xs', sents) ← ping_loop n ifc mac_gateway gateway raw clock xs
    some (x' ∷ xs', sent ∷ sents)

  unfoldable pub ping : Node R → Ip → (ℕ → ℕ) → Option (Node R × List Sent)
  unfolding ping_loop
  ping n raw clock = do
    let t = check_connections_is_alive r n.table
    (servers, sents) ←
        ping_loop t.number_of_servers n.ifc n.mac_gateway t.ip_gateway raw clock t.server_infoes
    some (record n { table = record t { server_infoes = servers } }, sents)

module _ {R : Type 0} where
  unfoldable pub advertise : Node R → Ip → Option (Node R × List Sent)
  advertise n raw = do
    let payload = advertise_data n.table
    sent ←
        send_advertise_packet n.ifc raw (ip_into_uint broadcast_text) broadcast_mac payload
          (length payload)
    some (record n { table = reset_learning_table (fill_forwarding_table n.table) }, sent ∷ [])

pub data Command : Type 0 where
  ping_command stats advertise_command dtable ltable : Command
  dsa lsa : List ℕ → Command

module _ {R : Type 0} (r : Rates R) where
  unfoldable pub run_command : Node R → Ip → (ℕ → ℕ) → Command → Option (Node R × List Sent)
  run_command n raw clock ping_command = ping r n raw clock
  run_command n raw clock stats = some (n, [])
  run_command n raw clock advertise_command = advertise n raw
  run_command n raw clock dtable = some (n, [])
  run_command n raw clock ltable = some (n, [])
  run_command n raw clock (dsa ip_dst) =
      if is_server_valid n.table ip_dst
      then send_packet n raw (clock 0) ip_dst true
      else some (n, [])
  run_command n raw clock (lsa ip_dst) =
      if is_server_valid n.table ip_dst
      then send_packet n raw (clock 0) ip_dst false
      else some (n, [])
