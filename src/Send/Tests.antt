-- ===== src/Send/Tests.antt =====
-- The packets of a node with the addresses 10.0.0.1 and 192.168.0.1.
use resilient_overlay_networ.Base.{ℕ, ◌+◌, ◌≡◌, ◌↔◌, List, [], ◌∷◌, some, true, false, arith, All}
use resilient_overlay_networ.Wire.{Mac, Ip, Ifaces, Udp, udp_bytes}
use resilient_overlay_networ.Wire.Order.{htons, htonl, le32}
use resilient_overlay_networ.Checksum.Verify.{IsByte}
use resilient_overlay_networ.Filter.{is_valid_packet}
use resilient_overlay_networ.Send.{send_advertise_packet, udp_packet, dsa_lsa_udp}
use resilient_overlay_networ.Send.Frames.{header_total, plain_header}
use resilient_overlay_networ.Send.Accepted.{
  FoldsOnce, udp_frame, send_advertise_packet-accepted, udp_packet-accepted,
}

abbrev pub mac : ℕ → Mac
mac n = record { b0 = 2; b1 = 0; b2 = 0; b3 = 0; b4 = 0; b5 = n }

abbrev pub ifaces : Ifaces
ifaces = record { mac0 = mac 1; ip0 = 0x0a000001; mac1 = mac 2; ip1 = 0xc0a80001 }

-- What the memory of a new packet holds.
abbrev pub raw : Ip
raw = plain_header 0 0 0 0

abbrev body : List ℕ
body = 0x12 ∷ 0x34 ∷ 0x56 ∷ 0x78 ∷ []

abbrev udp_header : Udp
udp_header = record { length = 0x0c00; port_dst = 0x8813; port_src = 0x8813; udp_sum = 0 }

body-IsByte : All IsByte (udp_bytes udp_header body)
body-IsByte = (
  omega arith,
  (
    omega arith,
    (
      omega arith,
      (
        omega arith,
        (
          omega arith,
          (
            omega arith,
            (
              omega arith,
              (omega arith, (omega arith, (omega arith, (omega arith, (omega arith, tt))))),
            ),
          ),
        ),
      ),
    ),
  ),
)

send_advertise_packet-accepted_example :
    let f =
      udp_frame
        (mac 3)
        (mac 1)
        (htonl 0x0a000001)
        (htonl 0x0a000002)
        (record {
          length = htons (8 + 4);
          port_dst = htons 5000;
          port_src = htons 5000;
          udp_sum = 0;
        })
        4
        body in
    (send_advertise_packet ifaces raw 0x0a000002 (mac 3) body 4
      ≡ some (record { frame = f; iface = 0 }))
    × ((is_valid_packet f ≡ some true)
        ↔ FoldsOnce (header_total 17 (htons (28 + 4)) (htonl 0x0a000001) (htonl 0x0a000002)))
send_advertise_packet-accepted_example =
    send_advertise_packet-accepted ifaces raw 0x0a000002 (mac 3) body
      (omega arith, (omega arith, (omega arith, (omega arith, tt)))) (omega arith)

udp_packet-accepted_example :
    let f =
      udp_frame
        (mac 3)
        (mac 1)
        (htonl 0x0a000001)
        (htonl 0x0a000002)
        (dsa_lsa_udp 8000 true)
        4
        (le32 (htonl 0x1234_5678) []) in
    (udp_packet ifaces (mac 3) raw 0x0a000002 8000 true false
      ≡ some (record { frame = f; iface = 0 }))
    × ((is_valid_packet f ≡ some true)
        ↔ FoldsOnce (header_total 17 (htons 32) (htonl 0x0a000001) (htonl 0x0a000002)))
udp_packet-accepted_example = udp_packet-accepted ifaces (mac 3) raw 0x0a000002 8000 true false
