-- ===== src/Servers/Tests.antt =====
-- A table of three servers, with fractions for the loss rates.
use mathlib.Core.Option
use resilient_overlay_networ.Base.{
  ℕ, zero, suc, ◌-◌, ◌*◌, ◌≡◌, ◌≤◌, ◌≢◌, ◌<◌, refl, List, [], ◌∷◌, some, Bool, true, false, ◌==◌,
  ltb, if◌then◌else◌, arith, get_elem?, set,
}
use resilient_overlay_networ.Base.Maps.{find}
use resilient_overlay_networ.Servers.{
  elapsed_ms, IpInfo, RoutingInfo, ServerInformation, Rates, Table, get_index_by_ip, index_loop,
  update_learning_table, learn,
}
use resilient_overlay_networ.Servers.Index.{view, some-eq}
use resilient_overlay_networ.Servers.Update.{update_learning_table-known}
use resilient_overlay_networ.Servers.Learn.{
  Report, Apart, learn_all, rtts, rates, NoneShorter, learn_all-latest, learn_all-shortest,
}
use resilient_overlay_networ.Servers.Ping.{receive_ping_packet}
use resilient_overlay_networ.Servers.Ping.Counted.{receive_ping_packet-match}

-- A rate as lost packets over sent ones.
abbrev pub Fraction : Type 0
Fraction = ℕ × ℕ

abbrev pub exceeds : Fraction → Fraction → Bool
exceeds (a, b) (c, d) = ltb (c * b) (a * d)

abbrev pub fractions : Rates Fraction
fractions = record { one = (1, 1); loss = λ received sent. (sent - received, sent); gtb = exceeds }

abbrev pub host : ℕ → IpInfo
host ip = record { uint = ip; str = [] }

abbrev pub route : RoutingInfo Fraction
route = record {
  ip_next_hop_rtt = host 1;
  ip_next_hop_lost = host 1;
  rtt_time = 80;
  lost_rate = (1, 4);
  is_active = true;
}

-- A server whose ping with this sequence number was sent at the time 0 and is not answered yet.
abbrev pub server : ℕ → ℕ → ServerInformation Fraction
server ip sequence = record {
  ip = host ip;
  ping_lost_rate = (1, 4);
  ping_sent = 4;
  ping_received = 3;
  rtt_time = 80;
  sequence_id = sequence;
  ping_lost_numbers = 0;
  ping_send_time = 0;
  is_received_last_ping = false;
  forwarding_table = route;
  learning_table = route;
}

-- Two servers and a free entry.
abbrev pub two_servers : Table Fraction
two_servers = record {
  server_infoes = server 10 7 ∷ server 20 9 ∷ server 0 0 ∷ [];
  number_of_servers = 2;
  number_of_all_servers = 2;
  ip_gateway = host 1;
}

update_learning_table-known_example :
    (t' : Table Fraction) × (update_learning_table fractions two_servers
        (host 20)
        50
        (1, 8)
        (host 10)
      ≡ some t')
    × ((q : ℕ)
        → view t' q ≡ (
            if q == 20
            then Option.map (learn fractions (host 10) 50 (1, 8)) (view two_servers 20)
            else view two_servers q))
unfolding get_index_by_ip index_loop
update_learning_table-known_example =
    update_learning_table-known fractions two_servers (host 20) (host 10) 50 (1, 8) 1 refl

-- Two nodes report, neither of them the next hop.
abbrev reports : List (Report Fraction)
reports =
    record { hop = host 10; rtt = 50; rate = (1, 8) }
    ∷ record { hop = host 20; rtt = 90; rate = (0, 1) }
    ∷ []

learn_all-latest_example :
    (find
        (learn_all fractions reports (server 30 0)).learning_table.ip_next_hop_rtt.uint
        (rtts fractions reports ((1, 80) ∷ []))
      ≡ some (learn_all fractions reports (server 30 0)).learning_table.rtt_time)
    × (find
          (learn_all fractions reports (server 30 0)).learning_table.ip_next_hop_lost.uint
          (rates fractions reports ((1, (1, 4)) ∷ []))
        ≡ some (learn_all fractions reports (server 30 0)).learning_table.lost_rate)
learn_all-latest_example =
    learn_all-latest fractions reports (server 30 0) ((1, 80) ∷ []) ((1, (1, 4)) ∷ []) refl refl

reports-Apart : Apart fractions reports (1 ∷ [])
reports-Apart = (
  ((λ e. absurd (omega arith)), tt),
  (((λ e. absurd (omega arith)), ((λ e. absurd (omega arith)), tt)), tt),
)

learn_all-shortest_example :
    NoneShorter fractions
      (learn_all fractions reports (server 30 0)).learning_table.rtt_time
      reports
    × ((learn_all fractions reports (server 30 0)).learning_table.rtt_time ≤ 80)
learn_all-shortest_example = learn_all-shortest fractions reports (server 30 0) reports-Apart

-- Among the two servers only the second is at 20.
other_address :
    (j : ℕ) (x : ServerInformation Fraction)
    → j < 2
    → j ≢ 1
    → get_elem? two_servers.server_infoes j ≡ some x
    → x.ip.uint ≢ 20
other_address zero x lt ne e at =
    let same : server 10 7 ≡ x = some-eq e in absurd (omega (arith, (rw (← same) at at)))
other_address (suc zero) x lt ne e at = absurd (ne refl)
other_address (suc (suc j)) x lt ne e at = absurd (omega arith)

receive_ping_packet-match_example :
    receive_ping_packet fractions 20 30_000_000 8 two_servers
    ≡ some (record two_servers {
      server_infoes = set two_servers.server_infoes 1 (record (server 20 9) {
        rtt_time = 55;
        ping_sent = 4;
        ping_received = 4;
        is_received_last_ping = true;
        ping_lost_numbers = 0;
        ping_lost_rate = (0, 4);
        learning_table = record {
          ip_next_hop_rtt = host 1;
          ip_next_hop_lost = host 1;
          rtt_time = 55;
          lost_rate = (0, 4);
          is_active = true;
        };
      });
    })
unfolding elapsed_ms
receive_ping_packet-match_example =
    receive_ping_packet-match fractions 1 20 30_000_000 8 (server 20 9) two_servers (omega arith)
      (omega arith) (omega arith) refl refl refl
      (λ j x lt ne e here. absurd (other_address j x lt ne e here))
      (λ j x lt e. other_address j x (omega arith) (omega arith) e)
