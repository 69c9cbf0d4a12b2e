-- ===== src/Adverts/Tests.antt =====
-- A payload that is built and read, and one that ends inside an entry.
use resilient_overlay_networ.Base.{◌≡◌, [], ◌∷◌, none, length, arith, ◌>>=◌}
use resilient_overlay_networ.Address.{ip_uint_into_str}
use resilient_overlay_networ.Servers.Tests.{fractions, two_servers}
use resilient_overlay_networ.Adverts.{advertise_data, receive_advertise_entries}
use resilient_overlay_networ.Adverts.RoundTrip.{
  AllInRange, learn_from, live, receive-advertise_data,
}
use resilient_overlay_networ.Adverts.Bounds.{receive_advertise_overread}

two_servers-InRange : AllInRange 2 two_servers.server_infoes
two_servers-InRange = (
  record {
    ip_lt = omega arith;
    rtt_lt = omega arith;
    sent_lt = omega arith;
    received_lt = omega arith;
  },
  (
    record {
      ip_lt = omega arith;
      rtt_lt = omega arith;
      sent_lt = omega arith;
      received_lt = omega arith;
    },
    tt,
  ),
)

receive-advertise_data_example :
    receive_advertise_entries fractions
      (advertise_data two_servers)
      (length (advertise_data two_servers))
      0x0a000001
      two_servers
    ≡ (do
      text ← ip_uint_into_str 0x0a000001
      learn_from fractions
          (record { uint = 0x0a000001; str = text })
          (live 2 two_servers.server_infoes)
          two_servers)
receive-advertise_data_example =
    receive-advertise_data fractions two_servers two_servers 0x0a000001 two_servers-InRange

-- One byte and the padding.
receive_advertise_overread_example :
    receive_advertise_entries fractions (1 ∷ 0 ∷ 0 ∷ 0 ∷ 0 ∷ []) 5 0x0a000001 two_servers ≡ none
receive_advertise_overread_example =
    receive_advertise_overread fractions (1 ∷ 0 ∷ 0 ∷ 0 ∷ 0 ∷ []) 0x0a000001 two_servers
      (omega arith) (omega arith) (λ e. absurd (omega arith)) (omega arith)
