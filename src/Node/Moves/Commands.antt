-- ===== src/Node/Moves/Commands.antt =====
-- The commands of `run`.
use resilient_overlay_networ.Base.{
  ℕ, zero, suc, ◌%◌, ◌^◌, ◌∙◌, arith, ◌≡◌, refl, sym, ap, inl, inr, List, [], ◌∷◌, some, Bool, true,
  false, ◌==◌, Bool-cases, bind_some, get_elem?, length,
}
use resilient_overlay_networ.Address.{ip_into_uint}
use resilient_overlay_networ.Wire.{Mac, Ip, Ifaces}
use resilient_overlay_networ.Send.{Sent, icmp_packet, send_advertise_packet, udp_packet}
use resilient_overlay_networ.Servers.{
  IpInfo, ServerInformation, Rates, fill_forwarding_table, reset_learning_table, forward, relearn,
}
use resilient_overlay_networ.Servers.Ping.{update_server_information, check_connections_is_alive}
use resilient_overlay_networ.Servers.Known.{known_loop}
use resilient_overlay_networ.Servers.Bounded.{
  Extends-self, Extends-then, Extends-entries, for_first-Extends,
}
use resilient_overlay_networ.Servers.Ping.Bounded.{
  check_connections_is_alive-Extends, update_server_information-ip,
}
use resilient_overlay_networ.Adverts.{advertise_data}
use resilient_overlay_networ.Ports.Lookup.{here, next, for_self, self_port}
use resilient_overlay_networ.Base.Maps.{find-insert_ne}
use resilient_overlay_networ.Node.{Node}
use resilient_overlay_networ.Node.Commands.{
  Command, ping_command, stats, advertise_command, dtable, ltable, dsa, lsa, hop_mac,
  is_server_valid, id_of, touch_id, next_hop, send_udp_packet, send_packet, send_icmp_packet,
  ping_loop, ping, advertise, run_command, broadcast_mac, broadcast_text,
}
use resilient_overlay_networ.Node.Moves.{Moves, Moves-self, ends}

module _ {R : Type 0} where
  known_cons :
      (k : ℕ) (x' x : ServerInformation R) (xs' xs : List (ServerInformation R))
      → x'.ip.uint ≡ x.ip.uint
      → ((k : ℕ) → known_loop k xs' ≡ known_loop k xs)
      → known_loop k (x' ∷ xs') ≡ known_loop k (x ∷ xs)
  known_cons zero x' x xs' xs e h = refl
  known_cons (suc k) x' x xs' xs e h = rw (e, h k) refl

  send_udp_packet-Moves :
      (n n' : Node R) (sent : List Sent) (raw : Ip) (now ip_dst hop : ℕ) (is_dsa : Bool)
      → send_udp_packet n raw now ip_dst hop is_dsa ≡ some (n', sent)
      → Moves n n'
  unfolding send_udp_packet
  send_udp_packet-Moves n n' sent raw now ip_dst hop is_dsa e =
      let (mac, at, e') = bind_some (hop_mac n hop) _ e in
      let (s, at', e'') =
        bind_some
          (udp_packet n.ifc mac raw ip_dst n.ports.src_port is_dsa (hop == n.table.ip_gateway.uint))
          _ e' in
      ends
        (record {
          extends = Extends-self n.table;
          takes = next here for_self;
          same_ifc = refl;
          same_gateway = refl;
          keeps = λ last k v lo found.
              find-insert_ne (n.ports.src_port % 2 ^ 16) k now n.sent_times
                (λ same. absurd (omega (arith, self_port n.ports)))
              ∙ found;
        })
        e''

  send_packet-Moves :
      (n n' : Node R) (sent : List Sent) (raw : Ip) (now : ℕ) (ip_dst : List ℕ) (is_dsa : Bool)
      → send_packet n raw now ip_dst is_dsa ≡ some (n', sent)
      → Moves n n'
  unfolding send_packet
  send_packet-Moves n n' sent raw now ip_dst is_dsa e =
      let ip = ip_into_uint ip_dst in
      let (server, at, e') =
        bind_some (get_elem? n.table.server_infoes (id_of n.ip_to_id ip)) _ e in
      let n1 : Node R = record n { ip_to_id = touch_id ip n.ip_to_id } in
      let m = send_udp_packet-Moves n1 n' sent raw now ip (next_hop is_dsa server) is_dsa e' in
      record {
        extends = m.extends;
        takes = m.takes;
        same_ifc = m.same_ifc;
        same_gateway = m.same_gateway;
        keeps = m.keeps;
      }

  advertise-Moves :
      (n n' : Node R) (sent : List Sent) (raw : Ip) → advertise n raw ≡ some (n', sent) → Moves n n'
  unfolding advertise fill_forwarding_table reset_learning_table
  advertise-Moves n n' sent raw e =
      let payload = advertise_data n.table in
      let (s, at, e') =
        bind_some
          (send_advertise_packet n.ifc raw (ip_into_uint broadcast_text) broadcast_mac payload
            (length payload))
          _ e in
      let filled = for_first-Extends n.table n.table.number_of_all_servers forward (λ s. refl) in
      let t = fill_forwarding_table n.table in
      let again = for_first-Extends t t.number_of_all_servers (relearn t.ip_gateway) (λ s. refl) in
      ends
        (record {
          extends = Extends-then filled again;
          takes = here;
          same_ifc = refl;
          same_gateway = refl;
          keeps = λ last k v lo e. e;
        })
        e'

module _ {R : Type 0} (r : Rates R) where
  ping_loop-known :
      (n : ℕ) (ifc : Ifaces) (mac_gateway : Mac) (gateway : IpInfo) (raw : Ip) (clock : ℕ → ℕ)
      (xs ys : List (ServerInformation R)) (sents : List Sent)
      → ping_loop r n ifc mac_gateway gateway raw clock xs ≡ some (ys, sents)
      → (length ys ≡ length xs) × ((k : ℕ) → known_loop k ys ≡ known_loop k xs)
  unfolding ping_loop send_icmp_packet
  ping_loop-known zero ifc mac_gateway gateway raw clock xs ys sents e =
      let same : xs ≡ ys = cc in rw (sym same) (refl, λ k. refl)
  ping_loop-known (suc n) ifc mac_gateway gateway raw clock [] ys sents e = cc
  ping_loop-known (suc n) ifc mac_gateway gateway raw clock (x ∷ xs) ys sents e =
      let ((x', s), at, e1) =
        bind_some (send_icmp_packet r ifc mac_gateway gateway raw (clock n) x) _ e in
      let ((xs', ss), at1, e2) =
        bind_some (ping_loop r n ifc mac_gateway gateway raw clock xs) _ e1 in
      let (s', at2, e3) =
        bind_some (icmp_packet ifc mac_gateway raw x.ip.uint x.sequence_id) _ at in
      let (l, k) = ping_loop-known n ifc mac_gateway gateway raw clock xs xs' ss at1 in
      let same : x' ∷ xs' ≡ ys = cc in
      let new : update_server_information r gateway (clock n) x ≡ x' = cc in
      let ip : x'.ip.uint ≡ x.ip.uint =
        rw new at (update_server_information-ip r gateway (clock n) x) in
      rw (sym same) (ap suc l, λ k'. known_cons k' x' x xs' xs ip k)

  ping-Moves :
      (n n' : Node R) (sent : List Sent) (raw : Ip) (clock : ℕ → ℕ)
      → ping r n raw clock ≡ some (n', sent)
      → Moves n n'
  unfolding ping
  ping-Moves n n' sent raw clock e =
      let t = check_connections_is_alive r n.table in
      let ((servers, sents), at, e1) =
        bind_some
          (ping_loop r t.number_of_servers n.ifc n.mac_gateway t.ip_gateway raw clock
            t.server_infoes)
          _ e in
      let (l, k) =
        ping_loop-known t.number_of_servers n.ifc n.mac_gateway t.ip_gateway raw clock
          t.server_infoes servers sents at in
      let pinged = Extends-entries t servers l (k t.number_of_all_servers) in
      ends
        (record {
          extends = Extends-then (check_connections_is_alive-Extends r n.table) pinged;
          takes = here;
          same_ifc = refl;
          same_gateway = refl;
          keeps = λ last k v lo e. e;
        })
        e1

  pub run_command-Moves :
      (n n' : Node R) (sent : List Sent) (raw : Ip) (clock : ℕ → ℕ) (c : Command)
      → run_command r n raw clock c ≡ some (n', sent)
      → Moves n n'
  unfolding run_command
  run_command-Moves n n' sent raw clock ping_command e = ping-Moves n n' sent raw clock e
  run_command-Moves n n' sent raw clock stats e = ends (Moves-self n) e
  run_command-Moves n n' sent raw clock advertise_command e = advertise-Moves n n' sent raw e
  run_command-Moves n n' sent raw clock dtable e = ends (Moves-self n) e
  run_command-Moves n n' sent raw clock ltable e = ends (Moves-self n) e
  run_command-Moves n n' sent raw clock (dsa ip_dst) e =
      elim (Bool-cases (is_server_valid n.table ip_dst)) [
        | inl v ↦ send_packet-Moves n n' sent raw (clock 0) ip_dst true (rw (run_command, v) at e)
        | inr v ↦ ends (Moves-self n) (rw (run_command, v) at e)
      ]
  run_command-Moves n n' sent raw clock (lsa ip_dst) e =
      elim (Bool-cases (is_server_valid n.table ip_dst)) [
        | inl v ↦ send_packet-Moves n n' sent raw (clock 0) ip_dst false (rw (run_command, v) at e)
        | inr v ↦ ends (Moves-self n) (rw (run_command, v) at e)
      ]
