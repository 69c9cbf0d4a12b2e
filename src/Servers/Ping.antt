-- ===== src/Servers/Ping.antt =====
-- The ping counters of user/sm.cpp: `update_server_information`, `receive_ping_packet` and
-- `check_connections_is_alive`. The clock's answers are arguments.
pub mod Alive
pub mod Receive
pub mod Counted
pub mod Bounded
use resilient_overlay_networ.Base.{
  ℕ, zero, suc, ◌+◌, ◌/◌, ◌%◌, ◌^◌, Option, none, some, Bool, true, false, not, ◌==◌, ◌&&◌,
  if◌then◌else◌, ◌>>=◌, get_elem?,
}
use resilient_overlay_networ.Servers.{
  IpInfo, RoutingInfo, ServerInformation, Rates, Table, max_rtt, elapsed_ms, for_first, modify,
  update_learning_table,
}

-- `x++` on a uint16_t.
abbrev pub succ16 : ℕ → ℕ
succ16 x = (x + 1) % 2 ^ 16

module _ {R : Type 0} (r : Rates R) where
  -- A server that is taken for down has its pings counted by `receive_ping_packet` alone.
  abbrev pub count_ping : ServerInformation R → ServerInformation R
  count_ping s =
      if not (s.rtt_time == max_rtt)
      then record s {
        ping_sent = succ16 s.ping_sent;
        ping_lost_rate = r.loss s.ping_received (succ16 s.ping_sent);
      }
      else s

  abbrev pub follow_rate : IpInfo → ServerInformation R → ServerInformation R
  follow_rate gateway s =
      if s.learning_table.ip_next_hop_lost.uint == gateway.uint
      then record s { learning_table = record s.learning_table { lost_rate = s.ping_lost_rate } }
      else s

  unfoldable pub update_server_information : IpInfo → ℕ → ServerInformation R → ServerInformation R
  update_server_information gateway now s =
      let counted =
        count_ping (record s { sequence_id = succ16 s.sequence_id; ping_send_time = now }) in
      record (follow_rate gateway counted) { is_received_last_ping = false }

  -- The body of the loop of `check_connections_is_alive`.
  unfoldable pub check_entry : ServerInformation R → ServerInformation R
  check_entry s =
      if s.is_received_last_ping
      then s
      else if s.ping_lost_numbers == 2
      then record s {
        ping_lost_rate = r.one;
        rtt_time = max_rtt;
        ping_lost_numbers = succ16 s.ping_lost_numbers;
      }
      else record s { ping_lost_numbers = succ16 s.ping_lost_numbers }

  unfoldable pub check_connections_is_alive : Table R → Table R
  check_connections_is_alive t = record t {
    server_infoes = for_first t.number_of_servers check_entry t.server_infoes;
  }

  -- What a reply that took `ping_time` does to the entry that it belongs to.
  abbrev pub count_time : ℕ → ServerInformation R → ServerInformation R
  count_time ping_time s =
      if s.rtt_time == max_rtt
      then record s { rtt_time = ping_time; ping_sent = succ16 s.ping_sent }
      else record s { rtt_time = (s.rtt_time + ping_time) / 2 }

  unfoldable pub answer_entry : ℕ → ServerInformation R → ServerInformation R
  answer_entry ping_time s =
      let timed = count_time ping_time s in
      record timed {
        ping_received = succ16 timed.ping_received;
        is_received_last_ping = true;
        ping_lost_numbers = 0;
        ping_lost_rate = r.loss (succ16 timed.ping_received) timed.ping_sent;
      }

  abbrev pub is_answered : ℕ → ℕ → ServerInformation R → Bool
  is_answered ip sequence_id s = s.ip.uint == ip && sequence_id + 1 == s.sequence_id

  unfoldable pub answer : ℕ → ServerInformation R → ℕ → Table R → Option (Table R)
  unfolding modify
  answer i s now t =
      let s' = answer_entry (elapsed_ms now s.ping_send_time) s in
      update_learning_table r
        (record t {
          server_infoes = modify i (answer_entry (elapsed_ms now s.ping_send_time)) t.server_infoes;
        })
        s'.ip s'.rtt_time s'.ping_lost_rate t.ip_gateway

  -- The loop from entry `i` on, with `n` rounds left.
  unfoldable pub receive_loop : ℕ → ℕ → ℕ → ℕ → ℕ → Table R → Option (Table R)
  receive_loop zero i ip now sequence_id t = some t
  receive_loop (suc n) i ip now sequence_id t = do
    s ← get_elem? t.server_infoes i
    t' ← if is_answered ip sequence_id s then answer i s now t else some t
    receive_loop n (i + 1) ip now sequence_id t'

  unfoldable pub receive_ping_packet : ℕ → ℕ → ℕ → Table R → Option (Table R)
  receive_ping_packet ip now sequence_id t = receive_loop t.number_of_servers 0 ip now sequence_id t
