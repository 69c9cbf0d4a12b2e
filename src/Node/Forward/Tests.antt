-- ===== src/Node/Forward/Tests.antt =====
-- A request that is forwarded, and one that is forwarded when the ports have run out.
use resilient_overlay_networ.Base.{
  ℕ, ◌+◌, ◌-◌, ◌/◌, ◌%◌, ◌^◌, ◌<◌, ◌≡◌, ◌≢◌, ◌↔◌, refl, ap, ◌∙◌, List, [], ◌∷◌, some, arith,
}
use resilient_overlay_networ.Base.Maps.{find}
use resilient_overlay_networ.Checksum.Verify.{word_total}
use resilient_overlay_networ.Wire.{eth_bytes, ip_bytes, udp_bytes}
use resilient_overlay_networ.Wire.Order.{htons, ntohs, htonl}
use resilient_overlay_networ.Send.{Sent}
use resilient_overlay_networ.Send.Fields.{source_port}
use resilient_overlay_networ.Send.Tests.{mac}
use resilient_overlay_networ.Servers.Tests.{Fraction, fractions}
use resilient_overlay_networ.Ports.{Ports, take_for_nat}
use resilient_overlay_networ.Node.{Node, forward_out, process_udp}
use resilient_overlay_networ.Node.Replies.{forward_out_lem}
use resilient_overlay_networ.Node.Tests.{request_ip, request_udp, reply_eth, body}
use resilient_overlay_networ.Node.Startup.Tests.{node}
use resilient_overlay_networ.Node.Forward.{forward_out-forwarded, forward_out-port}
use resilient_overlay_networ.Node.Forward.Lost.{Forwards, Forwards-any, Forwards-port, reply_lost}

abbrev header : ℕ → List ℕ
header sum =
    ip_bytes (record request_ip { ip_src = htonl 0xc0a80001; ip_sum = sum })
      (udp_bytes (record request_udp { port_src = htons 8000 }) body)

abbrev total : ℕ → ℕ
total sum = word_total 10 (header sum)

forward_out-forwarded_example :
    (ports : Ports) × (sum : ℕ) × (forward_out node reply_eth request_ip request_udp body 46
      ≡ some (
        record node { ports = ports },
        (record {
          frame = record {
            length = 46;
            bytes =
                eth_bytes
                  (record reply_eth { ether_shost = mac 2; ether_dhost = mac 8 })
                  (header sum);
          };
          iface = 1;
        })
            ∷ [],
      ))
    × (((0 < total sum) × (total sum % 0xffff ≡ 0))
        ↔ (total 0 / 2 ^ 16 + total 0 % 2 ^ 16 < 2 ^ 16))
    × (ports.src_port ≡ 8000 + 1)
    × (find 8000 ports.port_to_ip ≡ some 0x0200000a)
    × (find 8000 ports.my_port_to_src_port ≡ some 0x3412)
    × ((k : ℕ)
        → k ≢ 8000
        → (find k ports.port_to_ip ≡ find {V = ℕ} k [])
          × (find k ports.my_port_to_src_port ≡ find {V = ℕ} k []))
forward_out-forwarded_example =
    forward_out-forwarded node reply_eth request_ip request_udp body 46
      (
        omega arith,
        (
          omega arith,
          (
            omega arith,
            (
              omega arith,
              (
                omega arith,
                (
                  omega arith,
                  (
                    omega arith,
                    (
                      omega arith,
                      (
                        omega arith,
                        (
                          omega arith,
                          (
                            omega arith,
                            (
                              omega arith,
                              (
                                omega arith,
                                (
                                  omega arith,
                                  (
                                    omega arith,
                                    (
                                      omega arith,
                                      (
                                        omega arith,
                                        (
                                          omega arith,
                                          (
                                            omega arith,
                                            (
                                              omega arith,
                                              (
                                                omega arith,
                                                (
                                                  omega arith,
                                                  (
                                                    omega arith,
                                                    (
                                                      omega arith,
                                                      (
                                                        omega arith,
                                                        (
                                                          omega arith,
                                                          (
                                                            omega arith,
                                                            (
                                                            omega arith,
                                                            (
                                                            omega arith,
                                                            (
                                                            omega arith,
                                                            (omega arith, (omega arith, tt)),
                                                            ),
                                                            ),
                                                            ),
                                                          ),
                                                        ),
                                                      ),
                                                    ),
                                                  ),
                                                ),
                                              ),
                                            ),
                                          ),
                                        ),
                                      ),
                                    ),
                                  ),
                                ),
                              ),
                            ),
                          ),
                        ),
                      ),
                    ),
                  ),
                ),
              ),
            ),
          ),
        ),
      )
      (omega arith) (omega arith) (omega arith)

-- All the ports that there are, taken for requests.
worn_out : (n : Node Fraction) × Forwards node 57537 n
worn_out = Forwards-any node reply_eth request_ip request_udp body 46 57537 (omega arith)

one_left :
    (sents : List Sent) × (forward_out worn_out.0 reply_eth request_ip request_udp body 46
      ≡ some (
        record worn_out.0 {
          ports = take_for_nat worn_out.0.ports request_ip.ip_src request_udp.port_src;
        },
        sents,
      ))
one_left =
    let (sum, e) =
      forward_out_lem worn_out.0 reply_eth request_ip request_udp body 46 (omega arith) in
    (_, e)

-- It leaves from the port 1.
from_one : source_port one_left.0 ≡ some (htons 1)
from_one =
    (forward_out-port worn_out.0 _ one_left.0 reply_eth request_ip request_udp body 46 one_left.1).1
    ∙ ap (λ p. some (htons (p % 2 ^ 16))) (Forwards-port worn_out.1)

ntohs_one : ntohs (htons 1) ≡ 1
unfolding ntohs htons
ntohs_one = refl

reply_lost_example :
    (ntohs (htons 1) ≡ 57537 - 57536)
    × (process_udp fractions
          (record worn_out.0 {
            ports = take_for_nat worn_out.0.ports request_ip.ip_src request_udp.port_src;
          })
          reply_eth
          request_ip
          (record { port_src = 0x8813; port_dst = htons 1; length = 0x0c00; udp_sum = 0 })
          body
          46
        ≡ some (
          record worn_out.0 {
            ports = take_for_nat worn_out.0.ports request_ip.ip_src request_udp.port_src;
          },
          [],
        ))
reply_lost_example =
    reply_lost fractions node worn_out.0
      (record worn_out.0 {
        ports = take_for_nat worn_out.0.ports request_ip.ip_src request_udp.port_src;
      })
      57537 one_left.0 reply_eth reply_eth request_ip request_ip request_udp
      (record { port_src = 0x8813; port_dst = htons 1; length = 0x0c00; udp_sum = 0 }) body body 46
      46 refl worn_out.1 (omega arith) (omega arith) one_left.1 from_one
      (λ e. absurd (omega (arith, ntohs_one))) (λ e. absurd (omega (arith, ntohs_one)))
      (λ e. absurd (omega (arith, ntohs_one)))
