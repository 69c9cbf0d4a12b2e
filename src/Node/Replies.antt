-- ===== src/Node/Replies.antt =====
-- A packet of the overlay leaves through the translation, and the reply comes back to its sender.
use resilient_overlay_networ.Base.{
  ℕ, zero, suc, ◌+◌, ◌*◌, ◌%◌, ◌^◌, ◌≤◌, ◌<◌, ◌≡◌, refl, ◌∙◌, List, [], ◌∷◌, some, ◌>>=◌, length,
  arith, ne→==,
}
use resilient_overlay_networ.Base.Maps.{find}
use resilient_overlay_networ.Checksum.{check_sum_ip, sum_words, fold_ip}
use resilient_overlay_networ.Wire.{Mac, EthernetHdr, Ip, Udp, eth_bytes, ip_bytes, udp_bytes}
use resilient_overlay_networ.Wire.Order.{htons, htonl, ntohs, ntohl, htons-ntohs, htonl-ntohl}
use resilient_overlay_networ.Servers.{Rates}
use resilient_overlay_networ.Ports.{initial_ports, owner, client, take_for_nat}
use resilient_overlay_networ.Ports.Lookup.{TakesAll, owner-nat, TakesAll-grows}
use resilient_overlay_networ.Node.{Node, forward_out, receive_reply, process_udp}
use resilient_overlay_networ.Node.Translate.{translate_out, translate_in, renew_sum}

sum_words-some :
    (n : ℕ) (m : List ℕ) (s : ℕ) → 2 * n ≤ length m → (v : ℕ) × (sum_words n m s ≡ some v)
unfolding sum_words
sum_words-some zero m s h = (s, refl)
sum_words-some (suc n) [] s h = absurd (omega arith)
sum_words-some (suc n) (lo ∷ []) s h = absurd (omega arith)
sum_words-some (suc n) (lo ∷ hi ∷ m) s h = sum_words-some n m _ (omega arith)

-- The checksum of a header that lies in memory as a whole is defined.
pub check_sum_ip-some :
    (m : List ℕ) (hl : ℕ) → 4 * hl ≤ length m → (c : ℕ) × (check_sum_ip m hl ≡ some c)
unfolding check_sum_ip
check_sum_ip-some m hl h =
    let (v, e) = sum_words-some (hl * 2) m 0 (omega arith) in (fold_ip v, rw e)

renew_sum-some :
    (ip : Ip) (udp : Udp) (payload : List ℕ)
    → 4 * ip.ip_hl ≤ 28 + length payload
    → (sum : ℕ) × (renew_sum ip (udp_bytes udp payload) ≡ some (record ip { ip_sum = sum }))
unfolding renew_sum
renew_sum-some ip udp payload h =
    let (c, e) =
      check_sum_ip-some (ip_bytes (record ip { ip_sum = 0 }) (udp_bytes udp payload)) ip.ip_hl
        (omega arith) in
    (c, rw e)

module _ {R : Type 0} (n : Node R) (eth : EthernetHdr) (ip : Ip) (udp : Udp) (payload : List ℕ)
    (size : ℕ) (whole : 4 * ip.ip_hl ≤ 28 + length payload) where
  -- A packet whose IP header ends inside it goes to the gateway from the node's own address and its
  -- next port, and the port is taken for its sender; nothing else of it changes but the checksum.
  pub forward_out_lem :
      (sum : ℕ) × (forward_out n eth ip udp payload size
        ≡ some (
          record n { ports = take_for_nat n.ports ip.ip_src udp.port_src },
          (record {
            frame = record {
              length = size;
              bytes =
                  eth_bytes
                    (record eth { ether_shost = n.ifc.mac1; ether_dhost = n.mac_gateway })
                    (ip_bytes
                      (record ip { ip_src = htonl n.ifc.ip1; ip_sum = sum })
                      (udp_bytes
                        (record udp { port_src = htons (n.ports.src_port % 2 ^ 16) })
                        payload));
            };
            iface = 1;
          })
              ∷ [],
        ))
  unfolding forward_out translate_out
  forward_out_lem =
      let (sum, e) =
        renew_sum-some (record ip { ip_src = htonl n.ifc.ip1 })
          (record udp { port_src = htons (n.ports.src_port % 2 ^ 16) }) payload whole in
      (sum, rw e)

  translate_in_lem :
      (mac : Mac) (port_ip port_src : ℕ)
      → port_ip < 2 ^ 32
      → port_src < 2 ^ 16
      → (sum : ℕ) × (translate_in n.ifc mac port_ip port_src eth ip udp payload size
          ≡ some (record {
            frame = record {
              length = size;
              bytes =
                  eth_bytes
                    (record eth { ether_shost = n.ifc.mac0; ether_dhost = mac })
                    (ip_bytes
                      (record ip { ip_dst = port_ip; ip_sum = sum })
                      (udp_bytes (record udp { port_dst = port_src }) payload));
            };
            iface = 0;
          }))
  unfolding translate_in
  translate_in_lem mac port_ip port_src hi hp =
      let (sum, e) =
        renew_sum-some (record ip { ip_dst = port_ip }) (record udp { port_dst = port_src }) payload
          whole in
      (sum, rw (htonl-ntohl port_ip hi, htons-ntohs port_src hp, e))

module _ {R : Type 0} (r : Rates R) where
  process_udp-reply :
      (n : Node R) (eth : EthernetHdr) (ip : Ip) (udp : Udp) (payload : List ℕ)
      (size port_ip port_src : ℕ) (mac : Mac)
      → 8000 ≤ ntohs udp.port_dst
      → owner n.ports (ntohs udp.port_dst) ≡ client port_ip port_src
      → find (ntohl port_ip) n.ip_to_mac ≡ some mac
      → process_udp r n eth ip udp payload size ≡ (do
        sent ← translate_in n.ifc mac port_ip port_src eth ip udp payload size
        some (n, sent ∷ []))
  unfolding process_udp receive_reply
  process_udp-reply n eth ip udp payload size port_ip port_src mac lo own at = rw (
    ne→== (ntohs udp.port_dst) 5000 (omega arith),
    ne→== (ntohs udp.port_dst) 1000 (omega arith),
    ne→== (ntohs udp.port_dst) 2000 (omega arith),
    own,
    receive_reply,
    at,
  )

  -- A packet that was translated by a node reached from the start leaves from the next port. At
  -- whatever later state of that node, while the ports last, an UDP packet to that port whose IP
  -- header ends inside it is sent on through `iface[0]` to the first packet's sender: to its MAC
  -- address, which the node knows, its address and its port. The first packet's address and port
  -- are a uint32_t and a uint16_t.
  pub process_udp-translated :
      (n n' : Node R) (ip reply_ip : Ip) (udp reply_udp : Udp) (reply_eth : EthernetHdr)
      (reply_payload : List ℕ) (size : ℕ) (mac : Mac)
      → TakesAll initial_ports n.ports
      → TakesAll (take_for_nat n.ports ip.ip_src udp.port_src) n'.ports
      → n'.ports.src_port ≤ 2 ^ 16
      → ip.ip_src < 2 ^ 32
      → udp.port_src < 2 ^ 16
      → find (ntohl ip.ip_src) n'.ip_to_mac ≡ some mac
      → ntohs reply_udp.port_dst ≡ n.ports.src_port
      → 4 * reply_ip.ip_hl ≤ 28 + length reply_payload
      → (sum : ℕ) × (process_udp r n' reply_eth reply_ip reply_udp reply_payload size
          ≡ some (
            n',
            (record {
              frame = record {
                length = size;
                bytes =
                    eth_bytes
                      (record reply_eth { ether_shost = n'.ifc.mac0; ether_dhost = mac })
                      (ip_bytes
                        (record reply_ip { ip_dst = ip.ip_src; ip_sum = sum })
                        (udp_bytes (record reply_udp { port_dst = udp.port_src }) reply_payload));
              };
              iface = 0;
            })
                ∷ [],
          ))
  process_udp-translated n n' ip rip udp rudp reth rpayload size mac before after h hi hp at to
        whole =
      let lo = TakesAll-grows before in
      let own = rw (← to) at (owner-nat ip.ip_src udp.port_src before after h) in
      let (sum, e) =
        translate_in_lem n' reth rip rudp rpayload size whole mac ip.ip_src udp.port_src hi hp in
      (
        sum,
        process_udp-reply n' reth rip rudp rpayload size ip.ip_src udp.port_src mac (omega arith)
              own at
            ∙ rw e,
      )
