-- ===== src/Node/Forward/Lost.antt =====
-- What becomes of the ports when more packets are forwarded than there are.
use resilient_overlay_networ.Base.{
  ℕ, zero, suc, ◌+◌, ◌-◌, ◌*◌, ◌%◌, ◌^◌, ◌≤◌, ◌<◌, ◌≡◌, ◌≢◌, refl, sym, ap, ◌∙◌, List, [], some,
  arith, ne→==, length,
}
use resilient_overlay_networ.Wire.{EthernetHdr, Ip, Udp}
use resilient_overlay_networ.Wire.Order.{ntohs, ntohs-htons}
use resilient_overlay_networ.Send.{Sent}
use resilient_overlay_networ.Send.Fields.{source_port}
use resilient_overlay_networ.Servers.{Rates}
use resilient_overlay_networ.Servers.Index.{some-eq}
use resilient_overlay_networ.Ports.{Ports, initial_ports, owner, nobody}
use resilient_overlay_networ.Ports.Lookup.{nat_port}
use resilient_overlay_networ.Node.{Node, forward_out, receive_reply, process_udp}
use resilient_overlay_networ.Node.Forward.{forward_out-port}
use resilient_overlay_networ.Node.Replies.{forward_out_lem}

owner_low : (p : Ports) (port : ℕ) → port < 8000 → owner p port ≡ nobody
unfolding owner
owner_low p port low = ground arith

module _ {R : Type 0} where
  -- A number of packets forwarded, one after the other, without a fault.
  pub data Forwards (n : Node R) : ℕ → Node R → Type 0 where
    none_yet : Forwards n 0 n
    one_more :
        {k : ℕ} {u v : Node R} (sents : List Sent) (eth : EthernetHdr) (ip : Ip) (udp : Udp)
        (payload : List ℕ) (size : ℕ)
        → Forwards n k u
        → forward_out u eth ip udp payload size ≡ some (v, sents)
        → Forwards n (suc k) v

  -- Each takes one port, and none is given back.
  pub Forwards-port :
      {n u : Node R} {k : ℕ} → Forwards n k u → u.ports.src_port ≡ n.ports.src_port + k
  Forwards-port none_yet = omega arith
  Forwards-port (one_more {k} {u} {v} sents eth ip udp payload size before e) =
      let (taken, _) = forward_out-port u v sents eth ip udp payload size e in
      rw (← taken) (omega (arith, nat_port u.ports ip.ip_src udp.port_src, Forwards-port before))

  -- Any number of packets can be forwarded.
  pub Forwards-any :
      (n : Node R) (eth : EthernetHdr) (ip : Ip) (udp : Udp) (payload : List ℕ) (size k : ℕ)
      → 4 * ip.ip_hl ≤ 28 + length payload
      → (u : Node R) × Forwards n k u
  Forwards-any n eth ip udp payload size zero whole = (n, none_yet)
  Forwards-any n eth ip udp payload size (suc k) whole =
      let (u, before) = Forwards-any n eth ip udp payload size k whole in
      let (sum, e) = forward_out_lem u eth ip udp payload size whole in
      (_, one_more _ eth ip udp payload size before e)

module _ {R : Type 0} (r : Rates R) where
  -- Ports are never given back. From a node with no port taken, any 57536 packets or more are forwarded,
  -- fewer than 65536, and then one more. The source port in the frame that is sent for it is what the
  -- number of packets before exceeds 57536 by, a port below 8000; and a reply to that port is dropped, with
  -- no frame sent and nothing changed, unless it is one of the three ports that have a meaning of their own.
  pub reply_lost :
      (n0 n n1 : Node R) (k : ℕ) (sents : List Sent) (eth reply_eth : EthernetHdr)
      (ip reply_ip : Ip) (udp reply_udp : Udp) (payload reply_payload : List ℕ)
      (size reply_size : ℕ)
      → n0.ports ≡ initial_ports
      → Forwards n0 k n
      → 57536 ≤ k
      → k < 65536
      → forward_out n eth ip udp payload size ≡ some (n1, sents)
      → source_port sents ≡ some reply_udp.port_dst
      → ntohs reply_udp.port_dst ≢ 5000
      → ntohs reply_udp.port_dst ≢ 1000
      → ntohs reply_udp.port_dst ≢ 2000
      → (ntohs reply_udp.port_dst ≡ k - 57536)
        × (process_udp r n1 reply_eth reply_ip reply_udp reply_payload reply_size ≡ some (n1, []))
  unfolding process_udp receive_reply
  reply_lost n0 n n1 k sents eth reth ip rip udp rudp payload rpayload size rsize fresh run many few
        out at advert dsa lsa =
      let (_, source) = forward_out-port n n1 sents eth ip udp payload size out in
      let to = some-eq (sym at ∙ source) in
      let start : n0.ports.src_port ≡ 8000 = ap (λ (p : Ports). p.src_port) fresh in
      let next : n.ports.src_port ≡ n0.ports.src_port + k = Forwards-port run in
      let port : ntohs rudp.port_dst ≡ k - 57536 =
        rw to (ntohs-htons (n.ports.src_port % 2 ^ 16) (omega arith) ∙ omega arith) in
      (
        port,
        rw
            (
              ne→== _ _ advert,
              ne→== _ _ dsa,
              ne→== _ _ lsa,
              owner_low n1.ports (ntohs rudp.port_dst) (omega arith),
              receive_reply,
            )
            refl,
      )
