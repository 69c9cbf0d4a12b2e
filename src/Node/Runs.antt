-- ===== src/Node/Runs.antt =====
-- Runs of the node: frames that arrive and commands that are typed, in any order. Each is one step, to
-- its end.
pub mod Timed
pub mod Race
mod Tests
use resilient_overlay_networ.Base.{
  ℕ, zero, suc, ◌+◌, ◌*◌, ◌%◌, ◌^◌, ◌≤◌, ◌<◌, ◌≡◌, refl, sym, ap, ◌∙◌, List, [], ◌∷◌, ◌++◌, some,
  map, length, All, arith, Option,
}
use resilient_overlay_networ.Base.Maps.{find}
use resilient_overlay_networ.Address.{ip_into_uint}
use resilient_overlay_networ.Wire.{Mac, EthernetHdr, Ip, Udp, Frame, eth_bytes, ip_bytes, udp_bytes}
use resilient_overlay_networ.Wire.Order.{htons, ntohs, ntohl, ntohs-htons}
use resilient_overlay_networ.Send.{Sent}
use resilient_overlay_networ.Servers.{IpInfo, ServerInformation, Rates, Table}
use resilient_overlay_networ.Servers.Known.{Distinct, known, known_loop}
use resilient_overlay_networ.Servers.Bounded.{IsWell, Extends}
use resilient_overlay_networ.Ports.{initial_ports, take_for_nat}
use resilient_overlay_networ.Ports.Lookup.{TakesAll, here, next, for_nat, nat_port, TakesAll-grows}
use resilient_overlay_networ.Node.{Node, forward_out, process_udp, process_frame}
use resilient_overlay_networ.Node.Commands.{Command, run_command}
use resilient_overlay_networ.Node.Moves.{Moves, Moves-self, Moves-then}
use resilient_overlay_networ.Node.Moves.Commands.{run_command-Moves}
use resilient_overlay_networ.Node.Moves.Frames.{process_frame-Moves}
use resilient_overlay_networ.Node.Replies.{forward_out_lem, process_udp-translated}
use resilient_overlay_networ.Send.Fields.{source_port}
use resilient_overlay_networ.Servers.Index.{some-eq}
use resilient_overlay_networ.Node.Forward.{forward_out-port}
use resilient_overlay_networ.Node.Startup.{atoi, initialize}
use resilient_overlay_networ.Node.Startup.Servers.{
  IsWord, words_text, started, ids, initialize-servers,
}

module _ {R : Type 0} (r : Rates R) where
  -- A frame that is processed or a command that is run, without a fault, whatever the clock says and
  -- fresh memory holds.
  pub data Step (n : Node R) : Node R → Type 0 where
    on_frame :
        {n' : Node R} (frame : Frame) (now : ℕ) (sent : List Sent)
        → process_frame r n frame now ≡ some (n', sent)
        → Step n n'
    on_command :
        {n' : Node R} (raw : Ip) (clock : ℕ → ℕ) (c : Command) (sent : List Sent)
        → run_command r n raw clock c ≡ some (n', sent)
        → Step n n'

  pub data Reach (n : Node R) : Node R → Type 0 where
    start : Reach n n
    then : {u v : Node R} → Reach n u → Step u v → Reach n v

  Step-Moves : {n n' : Node R} → Step n n' → Moves n n'
  Step-Moves (on_frame frame now sent e) = process_frame-Moves r _ _ sent frame now e
  Step-Moves (on_command raw clock c sent e) = run_command-Moves r _ _ sent raw clock c e

  pub Reach-Moves : {n n' : Node R} → Reach n n' → Moves n n'
  Reach-Moves start = Moves-self _
  Reach-Moves (then rest s) = Moves-then (Reach-Moves rest) (Step-Moves s)

  length-started :
      (gateway : IpInfo) (ws : List (List ℕ)) (xs : List (ServerInformation R))
      → length (started r gateway ws xs) ≡ length xs
  length-started gateway [] xs = refl
  length-started gateway (w ∷ ws) [] = refl
  length-started gateway (w ∷ ws) (x ∷ xs) = ap suc (length-started gateway ws xs)

  known-started :
      (gateway : IpInfo) (ws : List (List ℕ)) (xs : List (ServerInformation R))
      → length ws ≤ length xs
      → known_loop (length ws) (started r gateway ws xs) ≡ map ip_into_uint ws
  known-started gateway [] xs h = refl
  known-started gateway (w ∷ ws) [] h = absurd (omega arith)
  known-started gateway (w ∷ ws) (x ∷ xs) h =
      ap (λ l. ip_into_uint w ∷ l) (known-started gateway ws xs (omega arith))

  -- The node is started with information that names some servers, no address twice and no more than
  -- the array has room for, and then gets any frames and commands that it processes without a fault.
  -- At every point its table holds the named servers first, in their order, then those that it has
  -- learnt, no address twice and no more than the array has room for; and its own servers are the named
  -- ones.
  pub runs-IsWell :
      (mac_into_byte : List ℕ → Mac) (ip mac numbers : List ℕ) (ws : List (List ℕ))
      (n n' n'' : Node R)
      → IsWord ip
      → IsWord mac
      → IsWord numbers
      → All IsWord ws
      → atoi numbers ≡ some (length ws)
      → length ws ≤ length n.table.server_infoes
      → Distinct (map ip_into_uint ws)
      → initialize r mac_into_byte (ip ++ words_text (mac ∷ numbers ∷ ws)) n ≡ some n'
      → Reach n' n''
      → (learnt : List ℕ) × (known n''.table ≡ map ip_into_uint ws ++ learnt)
        × IsWell n''.table
        × (n''.table.number_of_servers ≡ length ws)
        × (length n''.table.server_infoes ≡ length n.table.server_infoes)
  runs-IsWell mac_into_byte ip mac numbers ws n n' n'' hi hm hn hs e room new init run =
      let gateway : IpInfo = record { uint = ip_into_uint ip; str = ip } in
      let t : Table R = record {
        server_infoes = started r gateway ws n.table.server_infoes;
        number_of_servers = length ws;
        number_of_all_servers = length ws;
        ip_gateway = gateway;
      } in
      let made = initialize-servers r mac_into_byte ip mac numbers ws n hi hm hn hs e room in
      let named : t ≡ n'.table = cc in
      let names = known-started gateway ws n.table.server_infoes room in
      let long = length-started gateway ws n.table.server_infoes in
      let well : IsWell t = record {
        own_le = omega arith;
        all_le = omega (arith, long);
        distinct = rw names new;
      } in
      let x : Extends t n''.table = rw (← sym named) (Reach-Moves run).extends in
      (
        x.learnt,
        x.known_lem ∙ ap (λ l. l ++ x.learnt) names,
        x.stays well,
        x.same_servers,
        x.same_length ∙ long,
      )

  -- The whole way of a request and its reply. A node that started with no port taken gets any frames
  -- and commands; then it forwards a packet of a peer, whose IP header ends inside it, and gets any
  -- further frames and commands. While the ports last, a reply to the source port in the frame that was
  -- sent, in its bytes 34 and 35, whose IP header ends inside it, is sent on through `iface[0]` to that peer: to its MAC
  -- address, which the node knows, its address and its port. The packet's address and port are a
  -- uint32_t and a uint16_t, and no step is a fault.
  pub reply-returned :
      (n0 n n1 n2 : Node R) (sents : List Sent) (eth reply_eth : EthernetHdr) (ip reply_ip : Ip)
      (udp reply_udp : Udp) (payload reply_payload : List ℕ) (size reply_size : ℕ) (mac : Mac)
      → n0.ports ≡ initial_ports
      → Reach n0 n
      → 4 * ip.ip_hl ≤ 28 + length payload
      → forward_out n eth ip udp payload size ≡ some (n1, sents)
      → Reach n1 n2
      → n2.ports.src_port ≤ 2 ^ 16
      → ip.ip_src < 2 ^ 32
      → udp.port_src < 2 ^ 16
      → find (ntohl ip.ip_src) n2.ip_to_mac ≡ some mac
      → source_port sents ≡ some reply_udp.port_dst
      → 4 * reply_ip.ip_hl ≤ 28 + length reply_payload
      → (sum : ℕ) × (process_udp r n2 reply_eth reply_ip reply_udp reply_payload reply_size
          ≡ some (
            n2,
            (record {
              frame = record {
                length = reply_size;
                bytes =
                    eth_bytes
                      (record reply_eth { ether_shost = n0.ifc.mac0; ether_dhost = mac })
                      (ip_bytes
                        (record reply_ip { ip_dst = ip.ip_src; ip_sum = sum })
                        (udp_bytes (record reply_udp { port_dst = udp.port_src }) reply_payload));
              };
              iface = 0;
            })
                ∷ [],
          ))
  reply-returned n0 n n1 n2 sents eth reth ip rip udp rudp payload rpayload size rsize mac fresh run
        whole out run' h hi hp at at' rwhole =
      let before = Reach-Moves run in
      let after = Reach-Moves run' in
      let (sum, sent) = forward_out_lem n eth ip udp payload size whole in
      let taken : take_for_nat n.ports ip.ip_src udp.port_src ≡ n1.ports = cc in
      let kept : n1.ifc ≡ n.ifc = cc in
      let takes : TakesAll (take_for_nat n.ports ip.ip_src udp.port_src) n2.ports =
        rw taken after.takes in
      let one : TakesAll n.ports (take_for_nat n.ports ip.ip_src udp.port_src) =
        next here (for_nat ip.ip_src udp.port_src) in
      let below : n.ports.src_port < 2 ^ 16 =
        omega (arith, TakesAll-grows takes, nat_port n.ports ip.ip_src udp.port_src) in
      let (_, source) = forward_out-port n n1 sents eth ip udp payload size out in
      let to = some-eq (sym at' ∙ source) in
      let port : ntohs rudp.port_dst ≡ n.ports.src_port =
        rw to (ntohs-htons (n.ports.src_port % 2 ^ 16) (omega arith) ∙ omega arith) in
      let same : n2.ifc ≡ n0.ifc = after.same_ifc ∙ kept ∙ before.same_ifc in
      rw (sym same) (
        process_udp-translated r n n2 ip rip udp rudp reth rpayload rsize mac
          (rw (sym fresh) before.takes) takes h hi hp at port rwhole)
