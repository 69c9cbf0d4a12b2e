-- ===== src/Node/Forward.antt =====
-- A packet of the overlay that is forwarded to the gateway: its bytes, and what the port table keeps.
pub mod Lost
mod Tests
use resilient_overlay_networ.Base.{
  ℕ, zero, suc, ◌+◌, ◌-◌, ◌*◌, ◌/◌, ◌%◌, ◌^◌, ◌≤◌, ◌<◌, ◌≡◌, ◌≢◌, ◌↔◌, refl, sym, ap, ◌∙◌, List, [],
  ◌∷◌, some, length, arith, All, bind_some,
}
use resilient_overlay_networ.Base.Maps.{find, insert, find-insert_self, find-insert_ne}
use resilient_overlay_networ.Checksum.{check_sum_ip, fold_ip}
use resilient_overlay_networ.Checksum.Verify.{
  IsByte, word_total, with_word, check_sum_ip-sent, check_sum_ip-accepts, fold_ip-lt, All-with_word,
  length-with_word,
}
use resilient_overlay_networ.Wire.{EthernetHdr, Ip, Udp, eth_bytes, ip_bytes, udp_bytes}
use resilient_overlay_networ.Wire.Order.{htons, htonl, htons-lt, htonl-lt, le16, le32}
use resilient_overlay_networ.Send.{Sent}
use resilient_overlay_networ.Send.Accepted.{All-le32, FoldsOnce}
use resilient_overlay_networ.Send.Fields.{source_port, sent_field-source_port}
use resilient_overlay_networ.Servers.Index.{some-eq}
use resilient_overlay_networ.Ports.{Ports, take_for_nat}
use resilient_overlay_networ.Node.{Node, forward_out}
use resilient_overlay_networ.Node.Translate.{translate_out, renew_sum}

-- What a port is taken for is found under it, and under no other port anything else.
take_for_nat-found :
    (p : Ports) (ip_src port_src : ℕ)
    → let key = p.src_port % 2 ^ 16 in
      let q = take_for_nat p ip_src port_src in
      (q.src_port ≡ p.src_port + 1)
      × (find key q.port_to_ip ≡ some ip_src)
      × (find key q.my_port_to_src_port ≡ some port_src)
      × ((k : ℕ)
          → k ≢ key
          → (find k q.port_to_ip ≡ find k p.port_to_ip)
            × (find k q.my_port_to_src_port ≡ find k p.my_port_to_src_port))
unfolding take_for_nat
take_for_nat-found p ip_src port_src =
    let key = p.src_port % 2 ^ 16 in
    (
      refl,
      find-insert_self key ip_src p.port_to_ip,
      find-insert_self key port_src p.my_port_to_src_port,
      λ k ne. (
        find-insert_ne key k ip_src p.port_to_ip (λ e. ne (sym e)),
        find-insert_ne key k port_src p.my_port_to_src_port (λ e. ne (sym e)),
      ),
    )

-- The header's bytes before its checksum.
abbrev front : Ip → List ℕ
front i =
    (i.ip_hl + 16 * i.ip_v)
    ∷ (i.ip_tos ∷ le16 i.ip_len (le16 i.ip_id (le16 i.ip_off (i.ip_ttl ∷ (i.ip_p ∷ [])))))

-- The checksum that is renewed over bytes: the words of the header that has it add up to a positive
-- multiple of 0xffff exactly when one round of carries is enough for the words without it.
renew_sum-sums :
    (ip : Ip) (rest : List ℕ)
    → All IsByte (front ip)
    → All IsByte (le32 ip.ip_src (le32 ip.ip_dst rest))
    → 3 ≤ ip.ip_hl
    → ip.ip_hl < 16
    → 4 * ip.ip_hl ≤ 20 + length rest
    → (sum : ℕ) × (renew_sum ip rest ≡ some (record ip { ip_sum = sum }))
      × (((0 < word_total (ip.ip_hl * 2) (ip_bytes (record ip { ip_sum = sum }) rest))
            × (word_total (ip.ip_hl * 2) (ip_bytes (record ip { ip_sum = sum }) rest) % 0xffff ≡ 0))
          ↔ FoldsOnce (word_total (ip.ip_hl * 2) (ip_bytes (record ip { ip_sum = 0 }) rest)))
unfolding renew_sum
renew_sum-sums ip rest hf hb lo hi whole =
    let back = le32 ip.ip_src (le32 ip.ip_dst rest) in
    let total = word_total (ip.ip_hl * 2) (with_word (front ip) 0 back) in
    let sum = fold_ip total in
    let (stored, passes) =
      check_sum_ip-sent (front ip) back 5 ip.ip_hl hf hb refl (omega arith) hi (omega arith) in
    let exact =
      check_sum_ip-accepts (with_word (front ip) sum back) ip.ip_hl
        (All-with_word (front ip) back sum (fold_ip-lt total) hf hb) hi
        (omega (arith, length-with_word (front ip) back sum)) in
    (sum, rw stored refl, (λ s. passes.0 (exact.1 s), λ f. exact.0 (passes.1 f)))

module _ {R : Type 0} where
  -- The packet that is sent leaves from the next port.
  pub forward_out-port :
      (n n' : Node R) (sents : List Sent) (eth : EthernetHdr) (ip : Ip) (udp : Udp)
      (payload : List ℕ) (size : ℕ)
      → forward_out n eth ip udp payload size ≡ some (n', sents)
      → (take_for_nat n.ports ip.ip_src udp.port_src ≡ n'.ports)
        × (source_port sents ≡ some (htons (n.ports.src_port % 2 ^ 16)))
  unfolding forward_out translate_out
  forward_out-port n n' sents eth ip udp payload size e =
      let ((ports, s), at, e') =
        bind_some (translate_out n.ifc n.mac_gateway n.ports eth ip udp payload size) _ e in
      let (ip1, at1, e1) = bind_some (renew_sum (record ip { ip_src = htonl n.ifc.ip1 }) _) _ at in
      let eth1 : EthernetHdr = record eth {
        ether_shost = n.ifc.mac1;
        ether_dhost = n.mac_gateway;
      } in
      let udp1 : Udp = record udp { port_src = htons (n.ports.src_port % 2 ^ 16) } in
      let sent : Sent = record {
        frame = record {
          length = size;
          bytes = eth_bytes eth1 (ip_bytes ip1 (udp_bytes udp1 payload));
        };
        iface = 1;
      } in
      let inner : sent ≡ s = ap (λ (x : Ports × Sent). x.1) (some-eq e1) in
      let outer : s ∷ [] ≡ sents = ap (λ (x : Node R × List Sent). x.1) (some-eq e') in
      let taken : take_for_nat n.ports ip.ip_src udp.port_src ≡ ports =
        ap (λ (x : Ports × Sent). x.0) (some-eq e1) in
      let kept : ports ≡ n'.ports = ap (λ (x : Node R × List Sent). x.0.ports) (some-eq e') in
      (taken ∙ kept, rw (← outer, ← inner) (sent_field-source_port eth1 ip1 udp1 payload size 1))

  -- A packet of bytes whose IP header has three to fifteen words and ends inside it is sent on through
  -- `iface[1]`, to the gateway's MAC address and from that interface's, with that interface's address and
  -- the node's next port as source, and with a new checksum: the words of the header add up to a positive
  -- multiple of 0xffff exactly when one round of carries is enough for the words without the checksum.
  -- Nothing else of the packet changes. Under that port the sender's address and port are found from then
  -- on, and under every other port what was found before; the next port is one more.
  pub forward_out-forwarded :
      (n : Node R) (eth : EthernetHdr) (ip : Ip) (udp : Udp) (payload : List ℕ) (size : ℕ)
      → All IsByte (ip_bytes ip (udp_bytes udp payload))
      → 3 ≤ ip.ip_hl
      → ip.ip_hl < 16
      → 4 * ip.ip_hl ≤ 28 + length payload
      → let port = n.ports.src_port % 2 ^ 16 in
        let rest = udp_bytes (record udp { port_src = htons port }) payload in
        let header =
          λ (sum : ℕ). ip_bytes (record ip { ip_src = htonl n.ifc.ip1; ip_sum = sum }) rest in
        let total = λ (sum : ℕ). word_total (ip.ip_hl * 2) (header sum) in
        (ports : Ports) × (sum : ℕ) × (forward_out n eth ip udp payload size
          ≡ some (
            record n { ports = ports },
            (record {
              frame = record {
                length = size;
                bytes =
                    eth_bytes
                      (record eth { ether_shost = n.ifc.mac1; ether_dhost = n.mac_gateway })
                      (header sum);
              };
              iface = 1;
            })
                ∷ [],
          ))
        × (((0 < total sum) × (total sum % 0xffff ≡ 0))
            ↔ (total 0 / 2 ^ 16 + total 0 % 2 ^ 16 < 2 ^ 16))
        × (ports.src_port ≡ n.ports.src_port + 1)
        × (find port ports.port_to_ip ≡ some ip.ip_src)
        × (find port ports.my_port_to_src_port ≡ some udp.port_src)
        × ((k : ℕ)
            → k ≢ port
            → (find k ports.port_to_ip ≡ find k n.ports.port_to_ip)
              × (find k ports.my_port_to_src_port ≡ find k n.ports.my_port_to_src_port))
  unfolding forward_out translate_out
  forward_out-forwarded n eth ip udp payload size
        (
          a0,
          (
            a1,
            (
              a2,
              (
                a3,
                (
                  a4,
                  (
                    a5,
                    (
                      a6,
                      (
                        a7,
                        (
                          a8,
                          (
                            a9,
                            (
                              s0,
                              (
                                s1,
                                (i0, (i1, (i2, (i3, (d0, (d1, (d2, (d3, (p0, (p1, ports)))))))))),
                              ),
                            ),
                          ),
                        ),
                      ),
                    ),
                  ),
                ),
              ),
            ),
          ),
        )
        lo hi whole =
      let port = n.ports.src_port % 2 ^ 16 in
      let rest = udp_bytes (record udp { port_src = htons port }) payload in
      let lt = htons-lt port in
      let rest-bytes : All IsByte rest = (omega arith, (omega arith, ports)) in
      let (sum, renewed, sums) =
        renew_sum-sums (record ip { ip_src = htonl n.ifc.ip1 }) rest
          (a0, (a1, (a2, (a3, (a4, (a5, (a6, (a7, (a8, (a9, tt))))))))))
          (All-le32 (htonl n.ifc.ip1) (le32 ip.ip_dst rest) (htonl-lt n.ifc.ip1)
            (d0, (d1, (d2, (d3, rest-bytes)))))
          lo hi (omega arith) in
      let (next, address, number, others) = take_for_nat-found n.ports ip.ip_src udp.port_src in
      (
        take_for_nat n.ports ip.ip_src udp.port_src,
        sum,
        rw renewed refl,
        sums,
        next,
        address,
        number,
        others,
      )
