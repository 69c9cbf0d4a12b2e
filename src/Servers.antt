-- ===== src/Servers.antt =====
-- The table of servers of user/sm.cpp and user/my_structs.h: `server_infoes`, its counters, and the
-- functions that keep it. The array is a list of its entries; its length is the capacity,
-- MAX_SERVER_NUMBERS in the program. A loss rate is a C++ double: its type `R` and what the code does
-- with it are a parameter, `Rates R`. Each mutex is left out: a function here runs alone.
pub mod Index
pub mod Learn
pub mod Update
pub mod Ping
pub mod Known
pub mod Bounded
pub mod Tests
use resilient_overlay_networ.Base.{
  ℕ, zero, suc, ◌+◌, ◌-◌, ◌*◌, ◌/◌, ◌%◌, ◌^◌, List, [], ◌∷◌, Option, none, some, Bool, true, false,
  not, ◌==◌, ◌||◌, ◌&&◌, ltb, if◌then◌else◌, ◌>>=◌, get_elem?, set, length,
}

pub record IpInfo : Type 0 where
  pub uint : ℕ
  pub str : List ℕ

pub record RoutingInfo (R : Type 0) : Type 0 where
  pub ip_next_hop_rtt : IpInfo
  pub ip_next_hop_lost : IpInfo
  pub rtt_time : ℕ
  pub lost_rate : R
  pub is_active : Bool

pub record ServerInformation (R : Type 0) : Type 0 where
  pub ip : IpInfo
  pub ping_lost_rate : R
  pub ping_sent : ℕ
  pub ping_received : ℕ
  pub rtt_time : ℕ
  pub sequence_id : ℕ
  pub ping_lost_numbers : ℕ
  pub ping_send_time : ℕ
  pub is_received_last_ping : Bool
  pub forwarding_table : RoutingInfo R
  pub learning_table : RoutingInfo R

-- The doubles: the rate 1, `1 - received / sent`, and `a > b`.
pub record Rates (R : Type 0) : Type 0 where
  pub one : R
  pub loss : ℕ → ℕ → R
  pub gtb : R → R → Bool

pub record Table (R : Type 0) : Type 0 where
  pub server_infoes : List (ServerInformation R)
  pub number_of_servers : ℕ
  pub number_of_all_servers : ℕ
  pub ip_gateway : IpInfo

-- `numeric_limits<uint16_t>::max()`, which stands for a server that does not answer.
abbrev pub max_rtt : ℕ
max_rtt = 0xffff

-- The fields that the program's times are compared by: ticks of one nanosecond. The difference of
-- two times, cut to milliseconds and then to a uint16_t, also where the clock has gone back.
unfoldable pub elapsed_ms : ℕ → ℕ → ℕ
elapsed_ms now before =
    if ltb now before
    then (2 ^ 16 - (before - now) / 1_000_000 % 2 ^ 16) % 2 ^ 16
    else (now - before) / 1_000_000 % 2 ^ 16

-- `for (i = 0; i < n; i++)` with a body that changes entry `i` alone.
unfoldable pub for_first {ℓ} : {A : Type ℓ} → ℕ → (A → A) → List A → List A
for_first zero f xs = xs
for_first (suc n) f [] = []
for_first (suc n) f (x ∷ xs) = f x ∷ for_first n f xs

-- A change of one entry.
unfoldable pub modify {ℓ} : {A : Type ℓ} → ℕ → (A → A) → List A → List A
modify i f [] = []
modify zero f (x ∷ xs) = f x ∷ xs
modify (suc i) f (x ∷ xs) = x ∷ modify i f xs

module _ {R : Type 0} where
  -- The loop of `get_index_by_ip` from entry `i` on, with `n` rounds left; `none` is its -1.
  unfoldable pub index_loop : ℕ → List (ServerInformation R) → ℕ → ℕ → Option ℕ
  index_loop zero xs ip i = none
  index_loop (suc n) [] ip i = none
  index_loop (suc n) (x ∷ xs) ip i =
      let rest = index_loop n xs ip (i + 1) in if x.ip.uint == ip then some i else rest

  unfoldable pub get_index_by_ip : Table R → ℕ → Option ℕ
  get_index_by_ip t ip = index_loop t.number_of_all_servers t.server_infoes ip 0

  -- The next hops alone are copied.
  abbrev pub forward : ServerInformation R → ServerInformation R
  forward s = record s {
    forwarding_table = record s.forwarding_table {
      ip_next_hop_lost = s.learning_table.ip_next_hop_lost;
      ip_next_hop_rtt = s.learning_table.ip_next_hop_rtt;
    };
  }

  unfoldable pub fill_forwarding_table : Table R → Table R
  fill_forwarding_table t = record t {
    server_infoes = for_first t.number_of_all_servers forward t.server_infoes;
  }

  abbrev pub relearn : IpInfo → ServerInformation R → ServerInformation R
  relearn gateway s = record s {
    learning_table = record s.learning_table {
      ip_next_hop_lost = gateway;
      rtt_time = s.rtt_time;
      ip_next_hop_rtt = gateway;
      lost_rate = s.ping_lost_rate;
    };
  }

  unfoldable pub reset_learning_table : Table R → Table R
  reset_learning_table t = record t {
    server_infoes = for_first t.number_of_all_servers (relearn t.ip_gateway) t.server_infoes;
  }

module _ {R : Type 0} (r : Rates R) where
  abbrev pub fresh_entry : IpInfo → ServerInformation R → ServerInformation R
  fresh_entry ip s = record s {
    ip = ip;
    is_received_last_ping = false;
    ping_lost_rate = r.one;
    rtt_time = max_rtt;
    learning_table = record s.learning_table { lost_rate = r.one; rtt_time = max_rtt };
  }

  -- `none` is a write behind the end of the array.
  unfoldable pub insert_into_server_infoes : Table R → IpInfo → Option (Table R)
  unfolding modify
  insert_into_server_infoes t ip =
      if ltb t.number_of_all_servers (length t.server_infoes)
      then some (record t {
        server_infoes = modify t.number_of_all_servers (fresh_entry ip) t.server_infoes;
        number_of_all_servers = t.number_of_all_servers + 1;
      })
      else none

  -- What a report of a path through `ip` with a round trip time and a loss rate does to an entry.
  unfoldable pub learn_rtt : IpInfo → ℕ → RoutingInfo R → RoutingInfo R
  learn_rtt ip rtt l =
      if ip.uint == l.ip_next_hop_rtt.uint || ltb rtt l.rtt_time
      then record l { ip_next_hop_rtt = ip; rtt_time = rtt }
      else l

  unfoldable pub learn_lost : IpInfo → R → RoutingInfo R → RoutingInfo R
  learn_lost ip rate l =
      if ip.uint == l.ip_next_hop_lost.uint || r.gtb l.lost_rate rate
      then record l { ip_next_hop_lost = ip; lost_rate = rate }
      else l

  unfoldable pub learn : IpInfo → ℕ → R → ServerInformation R → ServerInformation R
  unfolding learn_rtt learn_lost
  learn ip rtt rate s = record s {
    learning_table =
        learn_lost ip rate (learn_rtt ip rtt (record s.learning_table { is_active = true }));
  }

  -- The argument `server_info` is read for its address, its round trip time and its loss rate.
  unfoldable pub update_learning_table : Table R → IpInfo → ℕ → R → IpInfo → Option (Table R)
  unfolding modify
  update_learning_table t server rtt rate ip = elim (get_index_by_ip t server.uint) [
    | some id ↦ some (record t { server_infoes = modify id (learn ip rtt rate) t.server_infoes })
    | none ↦ do
      t' ← insert_into_server_infoes t server
      some (record t' {
        server_infoes = modify t.number_of_all_servers (learn ip rtt rate) t'.server_infoes;
      })
  ]
