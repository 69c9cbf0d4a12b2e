-- ===== src/Node/Runs/Tests.antt =====
-- A node that is started, advertises, forwards a request, advertises again and gets the reply.
use resilient_overlay_networ.Base.{
  ℕ, ◌-◌, ◌^◌, ◌<◌, ◌≡◌, refl, List, [], ◌∷◌, ◌++◌, some, true, map, length, All, arith,
}
use resilient_overlay_networ.Base.Texts.{codes}
use resilient_overlay_networ.Checksum.Verify.{IsByte}
use resilient_overlay_networ.Address.{ip_into_uint, ip_into_uint_loop, char_digit}
use resilient_overlay_networ.Wire.{eth_bytes, ip_bytes, udp_bytes}
use resilient_overlay_networ.Wire.Order.{htons, ntohl, ntohs, read16}
use resilient_overlay_networ.Send.Fields.{sent_field}
use resilient_overlay_networ.Send.{Sent, send_advertise_packet}
use resilient_overlay_networ.Send.Tests.{mac, raw}
use resilient_overlay_networ.Send.Accepted.{send_advertise_packet-accepted, udp_packet-accepted}
use resilient_overlay_networ.Servers.{
  elapsed_ms, for_first, fill_forwarding_table, reset_learning_table,
}
use resilient_overlay_networ.Servers.Tests.{Fraction, fractions, two_servers}
use resilient_overlay_networ.Servers.Known.{known, Distinct}
use resilient_overlay_networ.Servers.Bounded.{IsWell}
use resilient_overlay_networ.Adverts.{advertise_data, advertise_loop}
use resilient_overlay_networ.Ports.{initial_ports, take_for_nat, take_for_self}
use resilient_overlay_networ.Node.{Node, process_udp}
use resilient_overlay_networ.Node.Commands.{
  advertise_command, run_command, advertise, broadcast_text, broadcast_mac, hop_mac,
}
use resilient_overlay_networ.Node.Replies.{forward_out_lem}
use resilient_overlay_networ.Node.Startup.Servers.{started, ids, initialize-servers}
use resilient_overlay_networ.Node.Startup.Tests.{
  read_mac, servers, gateway, two, ip-IsWord, mac-IsWord, number-IsWord, server-IsWord,
  second_server-IsWord, node,
}
use resilient_overlay_networ.Node.Tests.{request_ip, request_udp, reply_udp, reply_eth, body}
use resilient_overlay_networ.Base.Maps.{insert}
use resilient_overlay_networ.Node.Hops.{send_packet-hop}
use resilient_overlay_networ.Node.Console.Frames.{print_udp, reply_text}
use resilient_overlay_networ.Node.Halves.{note_time, send_udp_frame-sends}
use resilient_overlay_networ.Node.Runs.Race.{print_udp_raced}
use resilient_overlay_networ.Node.Runs.Timed.{reply-timed}
use resilient_overlay_networ.Node.Runs.{Step, start, then, on_command, runs-IsWell, reply-returned}

-- The node knows the MAC address of 10.0.0.2.
abbrev fresh_node : Node Fraction
fresh_node = record node { ip_to_mac = (0x0a000002, mac 9) ∷ [] }

abbrev started_node : Node Fraction
started_node = record fresh_node {
  table = record {
    server_infoes = started fractions gateway servers two_servers.server_infoes;
    number_of_servers = 2;
    number_of_all_servers = 2;
    ip_gateway = gateway;
  };
  mac_gateway = mac 7;
  ip_to_id = ids 0 servers [];
}

abbrev after_advert : Node Fraction → Node Fraction
after_advert n = record n { table = reset_learning_table (fill_forwarding_table n.table) }

advertise-sent :
    (n : Node Fraction) (payload : List ℕ) (sent : Sent)
    → advertise_data n.table ≡ payload
    → send_advertise_packet n.ifc raw
        (ip_into_uint broadcast_text)
        broadcast_mac
        payload
        (length payload)
      ≡ some sent
    → run_command fractions n raw (λ i. 0) advertise_command ≡ some (after_advert n, sent ∷ [])
unfolding run_command advertise
advertise-sent n payload sent e e' = rw (e, e') refl

advertised :
    (n : Node Fraction) (payload : List ℕ)
    → advertise_data n.table ≡ payload
    → All IsByte payload
    → length payload < 2 ^ 16 - 28
    → Step fractions n (after_advert n)
advertised n payload e bytes small =
    let (sent, valid) =
      send_advertise_packet-accepted n.ifc raw (ip_into_uint broadcast_text) broadcast_mac payload
        bytes small in
    on_command raw (λ i. 0) advertise_command (_ ∷ []) (advertise-sent n payload _ e sent)

-- No server has answered a ping, so that the payload is the padding alone.
abbrev padding : List ℕ
padding = 0 ∷ 0 ∷ 0 ∷ 0 ∷ []

padding-bytes : All IsByte padding
padding-bytes = (omega arith, (omega arith, (omega arith, (omega arith, tt))))

started_advert : Step fractions started_node (after_advert started_node)
unfolding advertise_data advertise_loop
started_advert = advertised started_node padding refl padding-bytes (omega arith)

addresses : Distinct (map ip_into_uint servers)
unfolding ip_into_uint ip_into_uint_loop char_digit
addresses = ((λ e. absurd (omega arith), tt), (tt, tt))

runs-IsWell_example :
    (learnt : List ℕ) × (known (after_advert started_node).table
      ≡ map ip_into_uint servers ++ learnt)
    × IsWell (after_advert started_node).table
    × ((after_advert started_node).table.number_of_servers ≡ 2)
    × (length (after_advert started_node).table.server_infoes ≡ length two_servers.server_infoes)
runs-IsWell_example =
    runs-IsWell fractions read_mac (codes "192.168.0.1") (codes "00:24:8C:01:79:06") (codes "2")
      servers fresh_node started_node (after_advert started_node) ip-IsWord mac-IsWord number-IsWord
      (server-IsWord, (second_server-IsWord, tt)) two (omega arith) addresses
      (initialize-servers fractions read_mac (codes "192.168.0.1") (codes "00:24:8C:01:79:06")
        (codes "2") servers fresh_node ip-IsWord mac-IsWord number-IsWord
        (server-IsWord, (second_server-IsWord, tt)) two (omega arith))
      (then start started_advert)

abbrev asking_node : Node Fraction
asking_node = after_advert started_node

abbrev asked_node : Node Fraction
asked_node = record asking_node { ports = take_for_nat initial_ports 0x0200000a 0x3412 }

asked_advert : Step fractions asked_node (after_advert asked_node)
unfolding advertise_data advertise_loop fill_forwarding_table reset_learning_table for_first
asked_advert = advertised asked_node padding refl padding-bytes (omega arith)

reply-returned_example :
    (sum : ℕ) × (process_udp fractions
        (after_advert asked_node)
        reply_eth
        request_ip
        reply_udp
        body
        46
      ≡ some (
        after_advert asked_node,
        (record {
          frame = record {
            length = 46;
            bytes =
                eth_bytes
                  (record reply_eth { ether_shost = mac 1; ether_dhost = mac 9 })
                  (ip_bytes
                    (record request_ip { ip_dst = 0x0200000a; ip_sum = sum })
                    (udp_bytes (record reply_udp { port_dst = 0x3412 }) body));
          };
          iface = 0;
        })
            ∷ [],
      ))
unfolding take_for_nat ntohl htons sent_field read16
reply-returned_example =
    reply-returned fractions started_node asking_node asked_node (after_advert asked_node) (_ ∷ [])
      reply_eth reply_eth request_ip request_ip request_udp reply_udp body body 46 46 (mac 9) refl
      (then start started_advert) (omega arith)
      (forward_out_lem asking_node reply_eth request_ip request_udp body 46 (omega arith)).1
      (then start asked_advert) (omega arith) (omega arith) (omega arith) refl refl (omega arith)

-- A DSA packet to a server of the node, and the reply 25.7 milliseconds later.
abbrev sent_node : Node Fraction
sent_node = record asking_node {
  ports = take_for_self initial_ports;
  sent_times = insert 8000 1_000_000 [];
}

sent_advert : Step fractions sent_node (after_advert sent_node)
unfolding advertise_data advertise_loop fill_forwarding_table reset_learning_table for_first
sent_advert = advertised sent_node padding refl padding-bytes (omega arith)

reply-timed_example :
    print_udp
      (after_advert sent_node)
      request_ip
      (record { port_src = htons 1000; port_dst = htons 8000; length = 0x0c00; udp_sum = 0 })
      26_700_000
    ≡ some (reply_text true 8000 25)
unfolding ip_into_uint ip_into_uint_loop char_digit hop_mac fill_forwarding_table
    reset_learning_table for_first take_for_self htons sent_field read16 ntohs
reply-timed_example =
    reply-timed fractions started_node asking_node sent_node (after_advert sent_node) _ raw
      1_000_000 26_700_000 (codes "10.0.0.1") true request_ip
      (record { port_src = htons 1000; port_dst = htons 8000; length = 0x0c00; udp_sum = 0 }) refl
      (then start started_advert)
      (send_packet-hop asking_node raw 1_000_000 (codes "10.0.0.1") true 0 _ _ (mac 7) refl refl
        refl refl)
      (then start sent_advert) (omega arith) refl refl (omega arith) (omega arith)

-- A DSA packet leaves from port 8000, a packet of 10.0.0.2 from port 8001, and then the time of the
-- first is noted: under 8001.
abbrev half_node : Node Fraction
half_node = record asking_node { ports = take_for_self initial_ports }

abbrev raced_node : Node Fraction
raced_node = record asking_node {
  ports = take_for_nat (take_for_self initial_ports) 0x0200000a 0x3412;
}

print_udp_raced_example :
    print_udp
      (note_time raced_node 1_000_000)
      request_ip
      (record { port_src = htons 1000; port_dst = htons 8000; length = 0x0c00; udp_sum = 0 })
      26_700_000
    ≡ some (reply_text true 8000 26)
unfolding ip_into_uint ip_into_uint_loop char_digit hop_mac take_for_self htons elapsed_ms
    sent_field read16 ntohs reset_learning_table fill_forwarding_table
print_udp_raced_example =
    print_udp_raced fractions started_node asking_node half_node raced_node _ _ raw 1_000_000
      26_700_000 10 (ip_into_uint (codes "192.168.0.1")) true reply_eth request_ip request_ip
      request_udp
      (record { port_src = htons 1000; port_dst = htons 8000; length = 0x0c00; udp_sum = 0 }) body
      46 refl (then start started_advert)
      (send_udp_frame-sends asking_node raw 10 (ip_into_uint (codes "192.168.0.1")) true (mac 7) _
        refl (udp_packet-accepted asking_node.ifc (mac 7) raw 10 8000 true true).0)
      (forward_out_lem half_node reply_eth request_ip request_udp body 46 (omega arith)).1
      (omega arith) refl refl
