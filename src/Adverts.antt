-- ===== src/Adverts.antt =====
-- Advertisements: the payload that `advertise_data` of user/sm.cpp builds from the table, and what
-- `receive_advertise_data` reads from it. `none` is a read behind the payload's memory or, through
-- `update_learning_table`, a write behind the table's array.
pub mod RoundTrip
pub mod Bounds
pub mod Learnt
mod Tests
use resilient_overlay_networ.Base.{
  ℕ, zero, suc, ◌+◌, ◌-◌, ◌*◌, ◌/◌, ◌%◌, ◌^◌, List, [], ◌∷◌, Option, none, some, Bool, ◌==◌,
  if◌then◌else◌, ◌>>=◌, length,
}
use resilient_overlay_networ.Address.{ip_uint_into_str}
use resilient_overlay_networ.Wire.Order.{htons, htonl, ntohs, ntohl, le16, le32}
use resilient_overlay_networ.Servers.{
  IpInfo, ServerInformation, Rates, Table, max_rtt, update_learning_table,
}

-- The twelve bytes of one server, in front of the rest.
abbrev pub entry_bytes : ℕ → ℕ → ℕ → ℕ → List ℕ → List ℕ
entry_bytes ip_uint rtt_time ping_sent ping_receive rest =
    le32 (htonl ip_uint)
      (le32 (htonl rtt_time) (le16 (htons ping_sent) (le16 (htons ping_receive) rest)))

module _ {R : Type 0} where
  -- The loop over `n` servers, and the padding behind the last.
  unfoldable pub advertise_loop : ℕ → List (ServerInformation R) → List ℕ
  advertise_loop zero xs = le32 0 []
  advertise_loop (suc n) [] = le32 0 []
  advertise_loop (suc n) (x ∷ xs) =
      let rest = advertise_loop n xs in
      if x.rtt_time == max_rtt
      then rest
      else entry_bytes x.ip.uint x.rtt_time x.ping_sent x.ping_received rest

  unfoldable pub advertise_data : Table R → List ℕ
  advertise_data t = advertise_loop t.number_of_servers t.server_infoes

-- One server as it lies in a payload: the four fields, not yet converted.
pub record Entry : Type 0 where
  pub ip_server : ℕ
  pub rtt_to_server : ℕ
  pub sent_to_server : ℕ
  pub received_to_server : ℕ

abbrev pub get32 : ℕ → ℕ → ℕ → ℕ → ℕ
get32 a b c d = a + 2 ^ 8 * b + 2 ^ 16 * c + 2 ^ 24 * d

unfoldable pub take_entry : List ℕ → Option (Entry × List ℕ)
take_entry (a ∷ b ∷ c ∷ d ∷ e ∷ f ∷ g ∷ h ∷ i ∷ j ∷ k ∷ l ∷ rest) = some (
  record {
    ip_server = get32 a b c d;
    rtt_to_server = get32 e f g h;
    sent_to_server = i + 256 * j;
    received_to_server = k + 256 * l;
  },
  rest,
)
take_entry _ = none

-- The rounds of `for (i = 0; i < advertise_size - 4; i += 12)`.
abbrev pub rounds : ℕ → ℕ
rounds advertise_size = (advertise_size - 4 + 11) / 12

module _ {R : Type 0} (r : Rates R) where
  -- The body of the loop. The loss rate is taken of the two counters before their bytes are put in
  -- order; the round trip time is cut to 16 bits.
  unfoldable pub receive_entry : IpInfo → Entry → Table R → Option (Table R)
  receive_entry host e t = do
    text ← ip_uint_into_str (ntohl e.ip_server)
    update_learning_table r t (record { uint = ntohl e.ip_server; str = text })
        (ntohl e.rtt_to_server % 2 ^ 16) (r.loss e.received_to_server e.sent_to_server) host

  unfoldable pub receive_entries : ℕ → IpInfo → List ℕ → Table R → Option (Table R)
  receive_entries zero host payload t = some t
  receive_entries (suc n) host payload t = do
    (e, rest) ← take_entry payload
    t' ← receive_entry host e t
    receive_entries n host rest t'

  -- `receive_advertise_data` without its last step, `store_mac_addr_to_map`.
  unfoldable pub receive_advertise_entries : List ℕ → ℕ → ℕ → Table R → Option (Table R)
  receive_advertise_entries payload advertise_size ip_src t = do
    text ← ip_uint_into_str ip_src
    receive_entries (rounds advertise_size) (record { uint = ip_src; str = text }) payload t
