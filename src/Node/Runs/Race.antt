-- ===== src/Node/Runs/Race.antt =====
-- `send_udp_packet` against `processFrame`: a packet that is translated between the two steps.
use resilient_overlay_networ.Base.{
  sym, [], ◌∷◌, ℕ, ◌+◌, ◌-◌, ◌%◌, ◌^◌, ◌≤◌, ◌≡◌, refl, ap, ◌∙◌, List, some, Bool, arith, bind_some,
  ◌==◌,
}
use resilient_overlay_networ.Base.Maps.{find-insert_ne}
use resilient_overlay_networ.Wire.{EthernetHdr, Ip, Udp}
use resilient_overlay_networ.Wire.Order.{htons, ntohs, ntohs-htons, htonl}
use resilient_overlay_networ.Send.{Sent, udp_packet}
use resilient_overlay_networ.Servers.{Rates, elapsed_ms}
use resilient_overlay_networ.Ports.{initial_ports, take_for_self, take_for_nat, value_at, or_zero}
use resilient_overlay_networ.Ports.Lookup.{
  TakesAll, here, next, for_nat, self_port, nat_port, owner-self, TakesAll-grows,
}
use resilient_overlay_networ.Send.Fields.{source_port, target_port, udp_packet-ports}
use resilient_overlay_networ.Servers.Index.{some-eq}
use resilient_overlay_networ.Node.{Node, forward_out}
use resilient_overlay_networ.Node.Commands.{hop_mac}
use resilient_overlay_networ.Node.Halves.{send_udp_frame, note_time}
use resilient_overlay_networ.Node.Translate.{translate_out, renew_sum}
use resilient_overlay_networ.Node.Console.Frames.{print_udp, reply_text}
use resilient_overlay_networ.Node.Runs.{Reach, Reach-Moves}
use resilient_overlay_networ.Node.Runs.Timed.{served_port, served_port-lt, print_udp-self}

module _ {R : Type 0} where
  send_udp_frame-taken :
      (n n' : Node R) (sents : List Sent) (raw : Ip) (ip_dst hop : ℕ) (is_dsa : Bool)
      → send_udp_frame n raw ip_dst hop is_dsa ≡ some (n', sents)
      → (take_for_self n.ports ≡ n'.ports)
        × (n.sent_times ≡ n'.sent_times)
        × (source_port sents ≡ some (htons (n.ports.src_port % 2 ^ 16)))
        × (target_port sents ≡ some (htons (served_port is_dsa)))
  unfolding send_udp_frame
  send_udp_frame-taken n n' sents raw ip_dst hop is_dsa e =
      let (mac, at, e') = bind_some (hop_mac n hop) _ e in
      let (s, at', e'') =
        bind_some
          (udp_packet n.ifc mac raw ip_dst n.ports.src_port is_dsa (hop == n.table.ip_gateway.uint))
          _ e' in
      let ports =
        udp_packet-ports n.ifc mac raw ip_dst n.ports.src_port is_dsa
          (hop == n.table.ip_gateway.uint) s at' in
      let same : s ∷ [] ≡ sents = cc in (cc, cc, rw (← same) ports.0, rw (← same) ports.1)

  forward_out-taken :
      (n n' : Node R) (sents : List Sent) (eth : EthernetHdr) (ip : Ip) (udp : Udp)
      (payload : List ℕ) (length : ℕ)
      → forward_out n eth ip udp payload length ≡ some (n', sents)
      → (take_for_nat n.ports ip.ip_src udp.port_src ≡ n'.ports) × (n.sent_times ≡ n'.sent_times)
  unfolding forward_out translate_out
  forward_out-taken n n' sents eth ip udp payload length e =
      let ((ports, s), at, e') =
        bind_some (translate_out n.ifc n.mac_gateway n.ports eth ip udp payload length) _ e in
      let (ip1, at1, e1) = bind_some (renew_sum (record ip { ip_src = htonl n.ifc.ip1 }) _) _ at in
      let taken : take_for_nat n.ports ip.ip_src udp.port_src ≡ ports = cc in (cc, cc)

  note_time-elsewhere :
      (n : Node R) (now port : ℕ)
      → n.ports.src_port ≡ port + 2
      → n.ports.src_port ≤ 2 ^ 16
      → value_at port (note_time n now).sent_times ≡ value_at port n.sent_times
  unfolding note_time
  note_time-elsewhere n now port e h = ap or_zero (
      find-insert_ne ((n.ports.src_port - 1) % 2 ^ 16) port now n.sent_times
        (λ same. absurd (omega arith)))

  note_time-ports : (n : Node R) (now : ℕ) → (note_time n now).ports ≡ n.ports
  unfolding note_time
  note_time-ports n now = refl

module _ {R : Type 0} (r : Rates R) where
  -- A node that started with no port taken gets any frames and commands; then, while the ports last,
  -- one thread sends a DSA or LSA packet, and before it notes the time the other forwards a packet of
  -- a peer. A reply whose ports are those in the first packet's frame, in its bytes 34 to 37, the one for
  -- the other, is then reported with the time since what was noted under its destination port before,
  -- zero if nothing was, whatever the time of the sending.
  pub print_udp_raced :
      (n0 n n1 n2 : Node R) (sents sents' : List Sent) (raw : Ip) (sent_at now ip_dst hop : ℕ)
      (is_dsa : Bool) (eth : EthernetHdr) (ip reply_ip : Ip) (udp reply_udp : Udp)
      (payload : List ℕ) (size : ℕ)
      → n0.ports ≡ initial_ports
      → Reach r n0 n
      → send_udp_frame n raw ip_dst hop is_dsa ≡ some (n1, sents)
      → forward_out n1 eth ip udp payload size ≡ some (n2, sents')
      → n.ports.src_port + 2 ≤ 2 ^ 16
      → source_port sents ≡ some reply_udp.port_dst
      → target_port sents ≡ some reply_udp.port_src
      → print_udp (note_time n2 sent_at) reply_ip reply_udp now
        ≡ some (
            reply_text is_dsa
              (ntohs reply_udp.port_dst)
              (elapsed_ms now (value_at (ntohs reply_udp.port_dst) n.sent_times)))
  print_udp_raced n0 n n1 n2 sents sents' raw sent_at now ip_dst hop is_dsa eth ip rip udp rudp
        payload size fresh run send forward h at at' =
      let before : TakesAll initial_ports n.ports = rw (← fresh) (Reach-Moves r run).takes in
      let (taken, times, source, target) =
        send_udp_frame-taken n n1 sents raw ip_dst hop is_dsa send in
      let (taken', times') = forward_out-taken n1 n2 sents' eth ip udp payload size forward in
      let one : n1.ports.src_port ≡ n.ports.src_port + 1 = rw (← taken) (self_port n.ports) in
      let two : n2.ports.src_port ≡ n1.ports.src_port + 1 =
        rw (← taken') (nat_port n1.ports ip.ip_src udp.port_src) in
      let step : TakesAll n1.ports n2.ports =
        rw (← taken') (next here (for_nat ip.ip_src udp.port_src)) in
      let takes : TakesAll (take_for_self n.ports) n2.ports = rw taken step in
      let key : n.ports.src_port % 2 ^ 16 ≡ n.ports.src_port = omega arith in
      let last = note_time n2 sent_at in
      let old : value_at n.ports.src_port last.sent_times ≡ value_at n.ports.src_port n.sent_times =
        rw (times, times')
          (note_time-elsewhere n2 sent_at n.ports.src_port (omega arith) (omega arith)) in
      let to = some-eq (sym at ∙ source) in
      let from = some-eq (sym at' ∙ target) in
      let back : ntohs rudp.port_dst ≡ n.ports.src_port =
        rw to (ntohs-htons (n.ports.src_port % 2 ^ 16) (omega arith) ∙ key) in
      rw back (
        print_udp-self last rip rudp now (value_at n.ports.src_port n.sent_times) n.ports.src_port
          is_dsa (TakesAll-grows before) back
          (rw from (ntohs-htons (served_port is_dsa) (served_port-lt is_dsa)))
          (rw (note_time-ports n2 sent_at) (owner-self before takes (omega arith))) old)
