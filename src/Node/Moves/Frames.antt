-- ===== src/Node/Moves/Frames.antt =====
-- `processFrame`.
use resilient_overlay_networ.Base.{
  ℕ, ◌-◌, ◌≡◌, refl, inl, inr, List, Option, none, some, false, ==→eq, ◌==◌, ◌||◌, Bool-cases,
  bind_some, take, length,
}
use resilient_overlay_networ.Base.Maps.{find, insert}
use resilient_overlay_networ.Wire.{EthernetHdr, Ip, Udp, Frame, udp_size}
use resilient_overlay_networ.Wire.Order.{htonl, ntohs, ntohl}
use resilient_overlay_networ.Wire.Overlay.{take_eth, take_ip, take_udp, take_icmp}
use resilient_overlay_networ.Filter.{is_valid_packet}
use resilient_overlay_networ.Send.{Sent}
use resilient_overlay_networ.Servers.{Rates}
use resilient_overlay_networ.Servers.Ping.{receive_ping_packet}
use resilient_overlay_networ.Servers.Bounded.{Extends-self}
use resilient_overlay_networ.Servers.Ping.Bounded.{receive_ping_packet-Extends}
use resilient_overlay_networ.Adverts.{receive_advertise_entries}
use resilient_overlay_networ.Adverts.Learnt.{receive_advertise_entries-Extends}
use resilient_overlay_networ.Ports.{Owner, nobody, self, client, owner, take_for_nat}
use resilient_overlay_networ.Ports.Lookup.{TakesAll, here, next, for_nat}
use resilient_overlay_networ.Node.{
  Node, touch, touch_of, forward_out, receive_reply, receive_advertise_data, process_udp,
  process_ping, process_ip, dispatch, process_frame,
}
use resilient_overlay_networ.Node.Translate.{renew_sum, translate_out, translate_in}
use resilient_overlay_networ.Node.Moves.{Moves, Moves-self, ends}

touch_of-find :
    (found : Option ℕ) (p k v : ℕ) (m : List (ℕ × ℕ))
    → (p == k) ≡ false
    → find k m ≡ some v
    → find k (touch_of found p m) ≡ some v
touch_of-find none p k v m a e = rw (a, e) refl
touch_of-find (some t) p k v m a e = e

touch-find : (p k v : ℕ) (m : List (ℕ × ℕ)) → find k m ≡ some v → find k (touch p m) ≡ some v
touch-find p k v m e = elim (Bool-cases (p == k)) [
  | inl a ↦ rw (==→eq p k a, e) e
  | inr a ↦ touch_of-find (find p m) p k v m a e
]

module _ {R : Type 0} where
  forward_out-Moves :
      (n n' : Node R) (sent : List Sent) (eth : EthernetHdr) (ip : Ip) (udp : Udp)
      (payload : List ℕ) (length : ℕ)
      → forward_out n eth ip udp payload length ≡ some (n', sent)
      → Moves n n'
  unfolding forward_out translate_out
  forward_out-Moves n n' sent eth ip udp payload length e =
      let ((ports, s), at, e') =
        bind_some (translate_out n.ifc n.mac_gateway n.ports eth ip udp payload length) _ e in
      let (ip1, at1, e1) = bind_some (renew_sum (record ip { ip_src = htonl n.ifc.ip1 }) _) _ at in
      let taken : take_for_nat n.ports ip.ip_src udp.port_src ≡ ports = cc in
      let one : TakesAll n.ports (take_for_nat n.ports ip.ip_src udp.port_src) =
        next here (for_nat ip.ip_src udp.port_src) in
      ends
        (record {
          extends = Extends-self n.table;
          takes = rw taken at one;
          same_ifc = refl;
          same_gateway = refl;
          keeps = λ last k v lo e. e;
        })
        e'

  receive_reply-Moves :
      (o : Owner) (n n' : Node R) (sent : List Sent) (eth : EthernetHdr) (ip : Ip) (udp : Udp)
      (payload : List ℕ) (length : ℕ)
      → receive_reply n o eth ip udp payload length ≡ some (n', sent)
      → Moves n n'
  unfolding receive_reply
  receive_reply-Moves nobody n n' sent eth ip udp payload length e = ends (Moves-self n) e
  receive_reply-Moves self n n' sent eth ip udp payload length e =
      ends
        (record {
          extends = Extends-self n.table;
          takes = here;
          same_ifc = refl;
          same_gateway = refl;
          keeps = λ last k v lo found. touch-find (ntohs udp.port_dst) k v n.sent_times found;
        })
        e
  receive_reply-Moves (client main_ip main_port) n n' sent eth ip udp payload length e =
      let (mac, at, e') = bind_some (find (ntohl main_ip) n.ip_to_mac) _ e in
      let (s, at', e'') =
        bind_some (translate_in n.ifc mac main_ip main_port eth ip udp payload length) _ e' in
      ends (Moves-self n) e''

module _ {R : Type 0} (r : Rates R) where
  process_udp-Moves :
      (n n' : Node R) (sent : List Sent) (eth : EthernetHdr) (ip : Ip) (udp : Udp)
      (payload : List ℕ) (length : ℕ)
      → process_udp r n eth ip udp payload length ≡ some (n', sent)
      → Moves n n'
  unfolding process_udp receive_advertise_data
  process_udp-Moves n n' sent eth ip udp payload length e =
      let port = ntohs udp.port_dst in
      elim (Bool-cases (port == 5000)) [
        | inl a ↦
            let (n1, at, e1) =
              bind_some
                (receive_advertise_data r n payload (length - udp_size) (ntohl ip.ip_src)
                  eth.ether_shost)
                _ (rw (process_udp, a) at e) in
            let (t, at1, e2) =
              bind_some
                (receive_advertise_entries r payload (length - udp_size) (ntohl ip.ip_src) n.table)
                _ at in
            let n2 : Node R = record n {
              table = t;
              ip_to_mac = insert (ntohl ip.ip_src) eth.ether_shost n.ip_to_mac;
            } in
            let same : n2 ≡ n1 = cc in
            let m : Moves n n2 = record {
              extends =
                  receive_advertise_entries-Extends r payload (length - udp_size) (ntohl ip.ip_src)
                    n.table t at1;
              takes = here;
              same_ifc = refl;
              same_gateway = refl;
              keeps = λ last k v lo e. e;
            } in
            ends (rw same at m) e1
        | inr a ↦ elim (Bool-cases (port == 1000 || port == 2000)) [
          | inl b ↦
              forward_out-Moves n n' sent eth ip udp payload length (rw (process_udp, a, b) at e)
          | inr b ↦
              receive_reply-Moves (owner n.ports port) n n' sent eth ip udp payload length
                (rw (process_udp, a, b) at e)
        ]
      ]

  process_ping-Moves :
      (n n' : Node R) (sent : List Sent) (ip : Ip) (m : List ℕ) (now : ℕ)
      → process_ping r n ip m now ≡ some (n', sent)
      → Moves n n'
  unfolding process_ping
  process_ping-Moves n n' sent ip m now e =
      let ((icmp, rest), at, e1) = bind_some (take_icmp m) _ e in
      let (t, at1, e2) =
        bind_some (receive_ping_packet r (ntohl ip.ip_src) now (ntohs icmp.sequence_id) n.table) _
          e1 in
      ends
        (record {
          extends =
              receive_ping_packet-Extends r (ntohl ip.ip_src) now (ntohs icmp.sequence_id) n.table t
                at1;
          takes = here;
          same_ifc = refl;
          same_gateway = refl;
          keeps = λ last k v lo e. e;
        })
        e2

  process_ip-Moves :
      (n n' : Node R) (sent : List Sent) (eth : EthernetHdr) (ip : Ip) (m : List ℕ) (length now : ℕ)
      → process_ip r n eth ip m length now ≡ some (n', sent)
      → Moves n n'
  unfolding process_ip
  process_ip-Moves n n' sent eth ip m length now e = elim (Bool-cases (ip.ip_p == 1)) [
    | inl a ↦ process_ping-Moves n n' sent ip m now (rw (process_ip, a) at e)
    | inr a ↦ elim (Bool-cases (ip.ip_p == 17)) [
      | inl b ↦
          let ((udp, payload), at, e1) = bind_some (take_udp m) _ (rw (process_ip, a, b) at e) in
          process_udp-Moves n n' sent eth ip udp payload length e1
      | inr b ↦ ends (Moves-self n) (rw (process_ip, a, b) at e)
    ]
  ]

  pub process_frame-Moves :
      (n n' : Node R) (sent : List Sent) (frame : Frame) (now : ℕ)
      → process_frame r n frame now ≡ some (n', sent)
      → Moves n n'
  unfolding process_frame dispatch
  process_frame-Moves n n' sent frame now e =
      let (valid, at, e1) = bind_some (is_valid_packet frame) _ e in
      elim (Bool-cases valid) [
        | inl a ↦
            let ((eth, m1), at1, e2) =
              bind_some (take_eth (take frame.length frame.bytes)) _ (rw a at e1) in
            let ((ip, m2), at2, e3) = bind_some (take_ip m1) _ e2 in
            process_ip-Moves n n' sent eth ip m2 frame.length now e3
        | inr a ↦ ends (Moves-self n) (rw a at e1)
      ]
