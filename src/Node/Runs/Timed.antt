-- ===== src/Node/Runs/Timed.antt =====
-- The time that is printed for the reply to a DSA or LSA packet of the node's own.
use resilient_overlay_networ.Base.{
  [], ◌∷◌, sym, ℕ, ◌+◌, ◌-◌, ◌*◌, ◌/◌, ◌%◌, ◌^◌, ◌≤◌, ◌<◌, ◌≡◌, refl, ap, ◌∙◌, List, [], some, Bool,
  true, false, ◌==◌, if◌then◌else◌, arith, bind_some, ne→==, get_elem?,
}
use resilient_overlay_networ.Base.Maps.{find, insert, find-insert_self}
use resilient_overlay_networ.Address.{ip_into_uint}
use resilient_overlay_networ.Wire.{Ip, Udp}
use resilient_overlay_networ.Wire.Order.{htons, ntohs, ntohs-htons}
use resilient_overlay_networ.Send.{Sent, udp_packet}
use resilient_overlay_networ.Servers.{Rates, elapsed_ms}
use resilient_overlay_networ.Ports.{initial_ports, take_for_self, owner, self, value_at, or_zero}
use resilient_overlay_networ.Ports.Lookup.{TakesAll, self_port, owner-self, TakesAll-grows}
use resilient_overlay_networ.Send.Fields.{source_port, target_port, udp_packet-ports}
use resilient_overlay_networ.Servers.Index.{some-eq}
use resilient_overlay_networ.Node.{Node}
use resilient_overlay_networ.Node.Commands.{
  send_packet, send_udp_packet, hop_mac, id_of, touch_id, next_hop,
}
use resilient_overlay_networ.Node.Console.Frames.{print_udp, reply_line, reply_text}
use resilient_overlay_networ.Node.Runs.{Reach, Reach-Moves}

abbrev pub served_port : Bool → ℕ
served_port is_dsa = if is_dsa then 1000 else 2000

pub served_port-lt : (is_dsa : Bool) → served_port is_dsa < 2 ^ 16
served_port-lt true = omega arith
served_port-lt false = omega arith

elapsed_ms-forward :
    (now before : ℕ)
    → before ≤ now
    → now - before < 2 ^ 16 * 1_000_000
    → elapsed_ms now before ≡ (now - before) / 1_000_000
unfolding elapsed_ms
elapsed_ms-forward now before le small = ground arith

module _ {R : Type 0} where
  -- What a packet of the node's own leaves behind.
  send_udp_packet-noted :
      (n n' : Node R) (sents : List Sent) (raw : Ip) (now ip_dst hop : ℕ) (is_dsa : Bool)
      → send_udp_packet n raw now ip_dst hop is_dsa ≡ some (n', sents)
      → (take_for_self n.ports ≡ n'.ports)
        × (insert (n.ports.src_port % 2 ^ 16) now n.sent_times ≡ n'.sent_times)
        × (source_port sents ≡ some (htons (n.ports.src_port % 2 ^ 16)))
        × (target_port sents ≡ some (htons (served_port is_dsa)))
  unfolding send_udp_packet
  send_udp_packet-noted n n' sents raw now ip_dst hop is_dsa e =
      let (mac, at, e') = bind_some (hop_mac n hop) _ e in
      let (s, at', e'') =
        bind_some
          (udp_packet n.ifc mac raw ip_dst n.ports.src_port is_dsa (hop == n.table.ip_gateway.uint))
          _ e' in
      let ports =
        udp_packet-ports n.ifc mac raw ip_dst n.ports.src_port is_dsa
          (hop == n.table.ip_gateway.uint) s at' in
      let same : s ∷ [] ≡ sents = cc in (cc, cc, rw (← same) ports.0, rw (← same) ports.1)

  send_packet-noted :
      (n n' : Node R) (sents : List Sent) (raw : Ip) (now : ℕ) (ip_dst : List ℕ) (is_dsa : Bool)
      → send_packet n raw now ip_dst is_dsa ≡ some (n', sents)
      → (take_for_self n.ports ≡ n'.ports)
        × (insert (n.ports.src_port % 2 ^ 16) now n.sent_times ≡ n'.sent_times)
        × (source_port sents ≡ some (htons (n.ports.src_port % 2 ^ 16)))
        × (target_port sents ≡ some (htons (served_port is_dsa)))
  unfolding send_packet
  send_packet-noted n n' sents raw now ip_dst is_dsa e =
      let ip = ip_into_uint ip_dst in
      let (server, at, e') =
        bind_some (get_elem? n.table.server_infoes (id_of n.ip_to_id ip)) _ e in
      let n1 : Node R = record n { ip_to_id = touch_id ip n.ip_to_id } in
      send_udp_packet-noted n1 n' sents raw now ip (next_hop is_dsa server) is_dsa e'

  -- The line for a reply to a port whose time is noted.
  pub print_udp-self :
      (n : Node R) (ip : Ip) (udp : Udp) (now sent_at port : ℕ) (is_dsa : Bool)
      → 8000 ≤ port
      → ntohs udp.port_dst ≡ port
      → ntohs udp.port_src ≡ served_port is_dsa
      → owner n.ports port ≡ self
      → value_at port n.sent_times ≡ sent_at
      → print_udp n ip udp now ≡ some (reply_text is_dsa port (elapsed_ms now sent_at))
  unfolding print_udp reply_line
  print_udp-self n ip udp now sent_at port is_dsa lo to from own at =
      rw
        (
          to,
          ne→== port 5000 (λ e. absurd (omega arith)),
          ne→== port 1000 (λ e. absurd (omega arith)),
          ne→== port 2000 (λ e. absurd (omega arith)),
          own,
          reply_line,
          from,
          to,
          at,
        )
        (line is_dsa)
    where
      line :
          (is_dsa : Bool)
          → (if served_port is_dsa == 1000
              then some (reply_text true port (elapsed_ms now sent_at))
              else if served_port is_dsa == 2000
              then some (reply_text false port (elapsed_ms now sent_at))
              else some [])
            ≡ some (reply_text is_dsa port (elapsed_ms now sent_at))
      line true = refl
      line false = refl

module _ {R : Type 0} (r : Rates R) where
  -- A node that started with no port taken gets any frames and commands; then it sends a DSA or LSA
  -- packet, and gets any further frames and commands. While the ports last, a reply whose ports are
  -- those in the frame that was sent, in its bytes 34 to 37, the one for the other, is reported as one to a
  -- packet of that kind, with its destination port and with the whole milliseconds since the packet was
  -- sent, if these are fewer than 2 ^ 16 and the clock has not gone back. No step is a fault.
  pub reply-timed :
      (n0 n n1 n2 : Node R) (sents : List Sent) (raw : Ip) (sent_at now : ℕ) (ip_dst : List ℕ)
      (is_dsa : Bool) (ip : Ip) (udp : Udp)
      → n0.ports ≡ initial_ports
      → Reach r n0 n
      → send_packet n raw sent_at ip_dst is_dsa ≡ some (n1, sents)
      → Reach r n1 n2
      → n2.ports.src_port ≤ 2 ^ 16
      → source_port sents ≡ some udp.port_dst
      → target_port sents ≡ some udp.port_src
      → sent_at ≤ now
      → now - sent_at < 2 ^ 16 * 1_000_000
      → print_udp n2 ip udp now
        ≡ some (reply_text is_dsa (ntohs udp.port_dst) ((now - sent_at) / 1_000_000))
  reply-timed n0 n n1 n2 sents raw sent_at now ip_dst is_dsa ip udp fresh run out run' h at at' le
        small =
      let before : TakesAll initial_ports n.ports = rw (← fresh) (Reach-Moves r run).takes in
      let (taken, noted, source, target) =
        send_packet-noted n n1 sents raw sent_at ip_dst is_dsa out in
      let after = Reach-Moves r run' in
      let takes : TakesAll (take_for_self n.ports) n2.ports = rw taken after.takes in
      let one : n1.ports.src_port ≡ n.ports.src_port + 1 = rw (← taken) (self_port n.ports) in
      let grows = TakesAll-grows after.takes in
      let key : n.ports.src_port % 2 ^ 16 ≡ n.ports.src_port = omega arith in
      let found : find n.ports.src_port n1.sent_times ≡ some sent_at =
        rw (← noted, key) (find-insert_self n.ports.src_port sent_at n.sent_times) in
      let to = some-eq (sym at ∙ source) in
      let from = some-eq (sym at' ∙ target) in
      let back : ntohs udp.port_dst ≡ n.ports.src_port =
        rw to (ntohs-htons (n.ports.src_port % 2 ^ 16) (omega arith) ∙ key) in
      rw (back, ← elapsed_ms-forward now sent_at le small)
        (print_udp-self n2 ip udp now sent_at n.ports.src_port is_dsa (TakesAll-grows before) back
          (rw from (ntohs-htons (served_port is_dsa) (served_port-lt is_dsa)))
          (owner-self before takes h)
          (ap or_zero (after.keeps h n.ports.src_port sent_at (omega arith) found)))
