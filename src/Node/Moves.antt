-- ===== src/Node/Moves.antt =====
-- What the steps of the node never do: no server leaves the table, and no port is given back.
pub mod Commands
pub mod Frames
use resilient_overlay_networ.Base.{
  ℕ, zero, suc, ◌-◌, ◌^◌, ◌<◌, ◌≤◌, arith, ◌≡◌, refl, sym, ap, ◌∙◌, inl, inr, List, [], ◌∷◌, Option,
  none, some, Bool, true, false, ◌==◌, ◌||◌, if◌then◌else◌, Bool-cases, bind_some, get_elem?, take,
  length, ◌>>=◌,
}
use resilient_overlay_networ.Base.Maps.{find, insert}
use resilient_overlay_networ.Address.{ip_into_uint}
use resilient_overlay_networ.Wire.{
  Mac, EthernetHdr, Ip, Udp, Icmp, Frame, Ifaces, udp_size, udp_bytes,
}
use resilient_overlay_networ.Wire.Order.{htonl, htons, ntohs, ntohl}
use resilient_overlay_networ.Wire.Overlay.{take_eth, take_ip, take_udp, take_icmp}
use resilient_overlay_networ.Filter.{is_valid_packet}
use resilient_overlay_networ.Send.{Sent, icmp_packet, send_advertise_packet, udp_packet}
use resilient_overlay_networ.Servers.{
  IpInfo, ServerInformation, Rates, Table, fill_forwarding_table, reset_learning_table, forward,
  relearn,
}
use resilient_overlay_networ.Servers.Ping.{
  receive_ping_packet, update_server_information, check_connections_is_alive,
}
use resilient_overlay_networ.Servers.Known.{known_loop}
use resilient_overlay_networ.Servers.Bounded.{
  Extends, Extends-self, Extends-then, Extends-entries, for_first-Extends,
}
use resilient_overlay_networ.Servers.Ping.Bounded.{
  receive_ping_packet-Extends, check_connections_is_alive-Extends, update_server_information-ip,
}
use resilient_overlay_networ.Adverts.{receive_advertise_entries, advertise_data}
use resilient_overlay_networ.Adverts.Learnt.{receive_advertise_entries-Extends}
use resilient_overlay_networ.Ports.{
  Ports, Owner, nobody, self, client, owner, take_for_nat, take_for_self,
}
use resilient_overlay_networ.Ports.Lookup.{
  TakesAll, here, next, for_nat, for_self, TakesAll-then, TakesAll-grows,
}
use resilient_overlay_networ.Node.{
  Node, forward_out, receive_reply, receive_advertise_data, process_udp, process_ping, process_ip,
  dispatch, process_frame,
}
use resilient_overlay_networ.Node.Translate.{renew_sum, translate_out, translate_in}
use resilient_overlay_networ.Node.Commands.{
  Command, ping_command, stats, advertise_command, dtable, ltable, dsa, lsa, hop_mac,
  is_server_valid, id_of, touch_id, next_hop, send_udp_packet, send_packet, send_icmp_packet,
  ping_loop, ping, advertise, run_command, broadcast_mac, broadcast_text,
}

module _ {R : Type 0} where
  -- The table has only got new servers, only ports were taken, and the times of those taken before
  -- stand, until the ports run out.
  pub record Moves (n n' : Node R) : Type 0 where
    pub extends : Extends n.table n'.table
    pub takes : TakesAll n.ports n'.ports
    pub same_ifc : n'.ifc ≡ n.ifc
    pub same_gateway : n'.mac_gateway ≡ n.mac_gateway
    pub keeps :
        n'.ports.src_port ≤ 2 ^ 16
        → (k v : ℕ) → k < n.ports.src_port
        → find k n.sent_times ≡ some v
        → find k n'.sent_times ≡ some v

  pub Moves-self : (n : Node R) → Moves n n
  Moves-self n = record {
    extends = Extends-self n.table;
    takes = here;
    same_ifc = refl;
    same_gateway = refl;
    keeps = λ last k v lo e. e;
  }

  pub Moves-then : {n u v : Node R} → Moves n u → Moves u v → Moves n v
  Moves-then l m = record {
    extends = Extends-then l.extends m.extends;
    takes = TakesAll-then l.takes m.takes;
    same_ifc = m.same_ifc ∙ l.same_ifc;
    same_gateway = m.same_gateway ∙ l.same_gateway;
    keeps = λ last k v lo e.
        m.keeps last k v (omega (arith, TakesAll-grows l.takes))
          (l.keeps (omega (arith, TakesAll-grows m.takes)) k v lo e);
  }

  -- A step that ends in a node that is known to have moved.
  pub ends :
      {n v n' : Node R} {s sent : List Sent}
      → Moves n v
      → ◌≡◌ {A = Option (Node R × List Sent)} (some (v, s)) (some (n', sent))
      → Moves n n'
  ends {n} {v} {n'} m e = let same : v ≡ n' = cc in rw (sym same) m
