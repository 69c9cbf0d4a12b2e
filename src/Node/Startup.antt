-- ===== src/Node/Startup.antt =====
-- `initialize` of user/sm.cpp and `initialize_server_information`: the node reads the custom
-- information that the server sent, word by word. `mac_into_byte` is a parameter: it is one call of
-- `sscanf` that writes four bytes for each of the six, which the language does not define.
pub mod Servers
pub mod Tests
use resilient_overlay_networ.Base.{
  ℕ, zero, suc, ◌+◌, ◌-◌, ◌*◌, ◌^◌, List, [], ◌∷◌, Option, none, some, Bool, true, false, ◌==◌,
  ◌&&◌, ◌||◌, ltb, leb, if◌then◌else◌, ◌>>=◌, length,
}
use resilient_overlay_networ.Base.Maps.{insert}
use resilient_overlay_networ.Address.{ip_into_uint}
use resilient_overlay_networ.Wire.{Mac}
use resilient_overlay_networ.Servers.{
  IpInfo, RoutingInfo, ServerInformation, Rates, Table, max_rtt, modify,
}
use resilient_overlay_networ.Node.{Node}

-- What `isspace` accepts.
abbrev pub is_space : ℕ → Bool
is_space c = c == b' ' || (leb 9 c && leb c 13)

unfoldable pub skip_spaces : List ℕ → List ℕ
skip_spaces [] = []
skip_spaces (c ∷ cs) = let rest = skip_spaces cs in if is_space c then rest else c ∷ cs

-- The characters before the next space, and what follows them.
unfoldable pub span_word : List ℕ → List ℕ × List ℕ
span_word [] = ([], [])
span_word (c ∷ cs) = elim (is_space c) [
  | true ↦ ([], c ∷ cs)
  | false ↦ (c ∷ (span_word cs).0, (span_word cs).1)
]

-- `ss >> word`: at the end of the stream the word stays what it was.
abbrev pub extracted : List ℕ → List ℕ → List ℕ × List ℕ
extracted word [] = (word, [])
extracted word (c ∷ cs) = span_word (c ∷ cs)

unfoldable pub next_word : List ℕ → List ℕ → List ℕ × List ℕ
next_word word stream = extracted word (skip_spaces stream)

-- The digits at the start of a text, as `atoi` adds them up.
unfoldable pub digits_value : List ℕ → ℕ → ℕ
digits_value [] n = n
digits_value (c ∷ cs) n =
    let rest = digits_value cs (n * 10 + (c - b'0')) in if leb b'0' c && leb c b'9' then rest else n

-- `atoi` on a word. A count below 0 is not modelled, and one from 2 ^ 31 on has no result.
abbrev pub in_int : ℕ → Option ℕ
in_int n = if ltb n (2 ^ 31) then some n else none

unfoldable pub atoi : List ℕ → Option ℕ
unfolding digits_value
atoi [] = some 0
atoi (c ∷ cs) =
    if c == b'-'
    then (if digits_value cs 0 == 0 then some 0 else none)
    else if c == b'+'
    then in_int (digits_value cs 0)
    else in_int (digits_value (c ∷ cs) 0)

module _ {R : Type 0} (r : Rates R) where
  -- The tables of a server at the start: the path through the gateway, of no known quality.
  abbrev pub unknown_route : IpInfo → RoutingInfo R
  unknown_route gateway = record {
    ip_next_hop_rtt = gateway;
    ip_next_hop_lost = gateway;
    rtt_time = max_rtt;
    lost_rate = r.one;
    is_active = false;
  }

  abbrev pub unknown_server : IpInfo → List ℕ → ServerInformation R → ServerInformation R
  unknown_server gateway server_id s = record s {
    forwarding_table = unknown_route gateway;
    learning_table = unknown_route gateway;
    ip = record { uint = ip_into_uint server_id; str = server_id };
    ping_lost_rate = r.one;
    ping_received = 0;
    ping_sent = 0;
    rtt_time = max_rtt;
    sequence_id = 0;
    ping_lost_numbers = 0;
  }

  unfoldable pub initialize_server_information : ℕ → List ℕ → Node R → Option (Node R)
  unfolding modify
  initialize_server_information id server_id n =
      if ltb id (length n.table.server_infoes)
      then some (record n {
        table = record n.table {
          server_infoes =
              modify id (unknown_server n.table.ip_gateway server_id) n.table.server_infoes;
        };
        ip_to_id = insert (ip_into_uint server_id) id n.ip_to_id;
      })
      else none

  -- The loop from server `i` on, with the last word that was read.
  unfoldable pub servers_loop : ℕ → ℕ → List ℕ → List ℕ → Node R → Option (Node R)
  servers_loop zero i server_temp stream n = some n
  servers_loop (suc k) i server_temp stream n = do
    let (server_temp', stream') = next_word server_temp stream
    n' ← initialize_server_information i server_temp' n
    servers_loop k (suc i) server_temp' stream' n'

  unfoldable pub initialize : (List ℕ → Mac) → List ℕ → Node R → Option (Node R)
  initialize mac_into_byte info n = do
    let (ip, stream) = next_word [] info
    let (mac_addr, stream') = next_word [] stream
    let (numbers, stream'') = next_word [] stream'
    count ← atoi numbers
    servers_loop count 0 [] stream'' (record n {
      table = record n.table {
        number_of_servers = count;
        number_of_all_servers = count;
        ip_gateway = record { uint = ip_into_uint ip; str = ip };
      };
      mac_gateway = mac_into_byte mac_addr;
    })
