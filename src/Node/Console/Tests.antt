-- ===== src/Node/Console/Tests.antt =====
-- Two servers, one of them silent, as the commands print them.
use resilient_overlay_networ.Base.{
  ℕ, ◌*◌, ◌/◌, ◌%◌, ◌≤◌, ◌≡◌, refl, List, [], ◌∷◌, ◌++◌, some, Bool, true, false, if◌then◌else◌,
  arith, map, ◌==◌,
}
use resilient_overlay_networ.Base.Texts.{codes}
use resilient_overlay_networ.Base.Shown.{shown}
use resilient_overlay_networ.Servers.{IpInfo, ServerInformation, Table, max_rtt}
use resilient_overlay_networ.Servers.Tests.{Fraction, route, server}
use resilient_overlay_networ.Node.Console.{
  Doubles, endl, print_loop, delay_line, loss_line, print_delay_table, print_loss_table,
  print_server_information, print_stats,
}
use resilient_overlay_networ.Node.Console.Rows.{rows, IsWord}
use resilient_overlay_networ.Node.Console.Read.{read_route, print_delay_table-read}

-- One digit, and two in the fixed format.
abbrev decimals : Doubles Fraction
decimals = record {
  is_one = λ (a, b). a == b;
  shown_rate = λ fixed. λ (a, b).
      codes "0." ++ (shown (a * 10 / b) ++ (if fixed then shown (a * 100 / b % 10) else []));
}

abbrev named : List ℕ → IpInfo
named text = record { uint = 0; str = text }

abbrev quick : ServerInformation Fraction
quick = record (server 10 7) {
  ip = named (codes "A");
  forwarding_table = record route {
    ip_next_hop_rtt = named (codes "B");
    ip_next_hop_lost = named (codes "C");
  };
  learning_table = record route {
    ip_next_hop_rtt = named (codes "D");
    ip_next_hop_lost = named (codes "E");
  };
}

abbrev silent : ServerInformation Fraction
silent = record quick {
  ip = named (codes "S");
  rtt_time = max_rtt;
  learning_table = record quick.learning_table { rtt_time = max_rtt; lost_rate = (1, 1) };
}

abbrev table : Table Fraction
table = record {
  server_infoes = quick ∷ silent ∷ [];
  number_of_servers = 1;
  number_of_all_servers = 2;
  ip_gateway = named (codes "G");
}

table_delays :
    print_delay_table table false ≡ some (endl (codes "A B D 80") ++ endl (codes "S B D INF"), true)
unfolding print_delay_table print_loop delay_line shown
table_delays = refl

-- The rates have another form when a time was printed before.
table_losses :
    print_loss_table decimals table false
    ≡ some (endl (codes "A C E 0.2") ++ endl (codes "S C E 1.00"), false)
unfolding print_loss_table print_loop loss_line shown
table_losses = refl

table_losses_later :
    print_loss_table decimals table true
    ≡ some (endl (codes "A C E 0.25") ++ endl (codes "S C E 1.00"), true)
unfolding print_loss_table print_loop loss_line shown
table_losses_later = refl

table_stats : print_stats decimals table false ≡ some (endl (codes "A 80 0.25 (4 3)"), true)
unfolding print_stats print_loop print_server_information shown
table_stats = refl

letter : (c : ℕ) → b'A' ≤ c → IsWord (c ∷ [])
letter c h = ((λ e. absurd (omega arith), λ e. absurd (omega arith)), tt)

print_delay_table-read_example :
    (text : List ℕ) × (fixed' : Bool) × (print_delay_table table false ≡ some (text, fixed'))
    × (map read_route (rows text)
        ≡ some (codes "A", codes "B", codes "D", 80)
          ∷ some (codes "S", codes "B", codes "D", max_rtt)
          ∷ [])
print_delay_table-read_example = print_delay_table-read table false (omega arith) (
  (letter 65 (omega arith), letter 66 (omega arith), letter 68 (omega arith), omega arith),
  ((letter 83 (omega arith), letter 66 (omega arith), letter 68 (omega arith), omega arith), tt),
)
