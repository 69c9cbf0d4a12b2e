-- ===== src/Node/Console.antt =====
-- What the node of user/sm.cpp prints on a command: `print_server_information`, `print_delay_table`,
-- `print_loss_table` and the lines of `send_dsa_packet` and `send_lsa_packet`. A text is the list of
-- its bytes. `cout` keeps the format that `setprecision (2) << fixed` sets, so that each function
-- takes whether it is set and returns it. How `cout` prints a double is a parameter.
pub mod Rows
pub mod Read
pub mod Frames
mod Tests
use resilient_overlay_networ.Base.{
  ℕ, zero, suc, ◌+◌, ◌-◌, List, [], ◌∷◌, ◌++◌, Option, none, some, Bool, true, false, ◌==◌,
  if◌then◌else◌, ◌>>=◌, get_elem?,
}
use resilient_overlay_networ.Base.Texts.{codes}
use resilient_overlay_networ.Base.Shown.{shown}
use resilient_overlay_networ.Address.{ip_into_uint}
use resilient_overlay_networ.Servers.{IpInfo, ServerInformation, Table, max_rtt}
use resilient_overlay_networ.Node.{Node}
use resilient_overlay_networ.Node.Commands.{
  Command, ping_command, stats, advertise_command, dtable, ltable, dsa, lsa, is_server_valid, id_of,
}

-- A rate against 1, and its text in the format that is set or is not.
pub record Doubles (R : Type 0) : Type 0 where
  pub is_one : R → Bool
  pub shown_rate : Bool → R → List ℕ

abbrev pub endl : List ℕ → List ℕ
endl text = text ++ 10 ∷ []

-- `a << " "`, in front of `rest`.
abbrev pub column : List ℕ → List ℕ → List ℕ
column a rest = a ++ b' ' ∷ rest

-- `for (i = 0; i < n; i++)` with a body that prints entry `i`; `none` is a read behind the array.
unfoldable pub print_loop {ℓ} :
    {A : Type ℓ} → (Bool → A → List ℕ × Bool) → ℕ → List A → Bool → Option (List ℕ × Bool)
print_loop line zero xs fixed = some ([], fixed)
print_loop line (suc n) [] fixed = none
print_loop line (suc n) (x ∷ xs) fixed = do
  let (text, set) = line fixed x
  (rest, fixed') ← print_loop line n xs set
  some (text ++ rest, fixed')

module _ {R : Type 0} where
  unfoldable pub delay_line : Bool → ServerInformation R → List ℕ × Bool
  unfolding shown
  delay_line fixed s =
      let hops : List ℕ → List ℕ = λ rest. column s.ip.str (
        column s.forwarding_table.ip_next_hop_rtt.str
          (column s.learning_table.ip_next_hop_rtt.str rest)) in
      if s.learning_table.rtt_time == max_rtt
      then (hops (endl (codes "INF")), fixed)
      else (hops (endl (shown s.learning_table.rtt_time)), true)

  unfoldable pub print_delay_table : Table R → Bool → Option (List ℕ × Bool)
  unfolding print_loop delay_line
  print_delay_table t fixed = print_loop delay_line t.number_of_all_servers t.server_infoes fixed

module _ {R : Type 0} (d : Doubles R) where
  unfoldable pub loss_line : Bool → ServerInformation R → List ℕ × Bool
  loss_line fixed s =
      let rate = s.learning_table.lost_rate in
      (
        column s.ip.str (
            column s.forwarding_table.ip_next_hop_lost.str (
              column s.learning_table.ip_next_hop_lost.str
                (if d.is_one rate then endl (codes "1.00") else endl (d.shown_rate fixed rate)))),
        fixed,
      )

  unfoldable pub print_loss_table : Table R → Bool → Option (List ℕ × Bool)
  unfolding print_loop loss_line
  print_loss_table t fixed = print_loop loss_line t.number_of_all_servers t.server_infoes fixed

  unfoldable pub print_server_information : Bool → ServerInformation R → List ℕ × Bool
  unfolding shown
  print_server_information fixed s =
      if s.rtt_time == max_rtt then (column s.ip.str (endl (codes "INF 1.00")), fixed) else (
        column s.ip.str (
            column (shown s.rtt_time) (
              d.shown_rate true s.ping_lost_rate
              ++ (codes " ("
                  ++ column (shown s.ping_sent) (shown s.ping_received ++ endl (codes ")"))))),
        true,
      )

  -- `stats` goes over the servers that the node was given, the tables over all that it knows.
  unfoldable pub print_stats : Table R → Bool → Option (List ℕ × Bool)
  unfolding print_loop print_server_information
  print_stats t fixed =
      print_loop print_server_information t.number_of_servers t.server_infoes fixed

-- The last line of `send_dsa_packet` and `send_lsa_packet`; `src_port` has been counted up by then.
unfoldable pub packet_line : List ℕ → ℕ → List ℕ → IpInfo → List ℕ
unfolding shown
packet_line kind src_port ip_dst next_hop =
    kind
    ++ (codes " packet "
        ++ (shown (src_port - 1)
            ++ (codes " destined for " ++ (ip_dst ++ (codes " sent to " ++ endl next_hop.str)))))

module _ {R : Type 0} (d : Doubles R) where
  -- What `run` prints on a command that is carried out in state `n`.
  unfoldable pub print_command : Node R → Bool → Command → Option (List ℕ × Bool)
  unfolding print_delay_table print_loss_table print_stats packet_line is_server_valid
  print_command n fixed ping_command = some ([], fixed)
  print_command n fixed stats = print_stats d n.table fixed
  print_command n fixed advertise_command = some ([], fixed)
  print_command n fixed dtable = print_delay_table n.table fixed
  print_command n fixed ltable = print_loss_table d n.table fixed
  print_command n fixed (dsa ip_dst) =
      if is_server_valid n.table ip_dst
      then (do
        s ← get_elem? n.table.server_infoes (id_of n.ip_to_id (ip_into_uint ip_dst))
        let hop = s.forwarding_table.ip_next_hop_rtt
        some (packet_line (codes "DSA") (n.ports.src_port + 1) ip_dst hop, fixed))
      else some ([], fixed)
  print_command n fixed (lsa ip_dst) =
      if is_server_valid n.table ip_dst
      then (do
        s ← get_elem? n.table.server_infoes (id_of n.ip_to_id (ip_into_uint ip_dst))
        let hop = s.forwarding_table.ip_next_hop_lost
        some (packet_line (codes "LSA") (n.ports.src_port + 1) ip_dst hop, fixed))
      else some ([], fixed)
