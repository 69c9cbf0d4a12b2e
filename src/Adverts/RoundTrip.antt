-- ===== src/Adverts/RoundTrip.antt =====
-- What a node learns from an advertisement that another node built.
use resilient_overlay_networ.Base.{
  ℕ, zero, suc, ◌+◌, ◌*◌, ◌/◌, ◌%◌, ◌^◌, ◌<◌, ◌≡◌, refl, ◌∙◌, inl, inr, List, [], ◌∷◌, Option, some,
  ◌==◌, if◌then◌else◌, ◌>>=◌, length, arith, Bool-cases, bind_assoc, bind_congr,
}
use resilient_overlay_networ.Address.{ip_uint_into_str}
use resilient_overlay_networ.Wire.Order.{htons, htonl, htonl-lt, ntohl-htonl}
use resilient_overlay_networ.Servers.{
  IpInfo, ServerInformation, Rates, Table, max_rtt, update_learning_table,
}
use resilient_overlay_networ.Adverts.{
  get32, entry_bytes, advertise_loop, advertise_data, take_entry, receive_entry, receive_entries,
  rounds, receive_advertise_entries,
}

-- The fields fit their C++ types.
pub record InRange {R : Type 0} (s : ServerInformation R) : Type 0 where
  pub ip_lt : s.ip.uint < 2 ^ 32
  pub rtt_lt : s.rtt_time < 2 ^ 16
  pub sent_lt : s.ping_sent < 2 ^ 16
  pub received_lt : s.ping_received < 2 ^ 16

get32-le32 :
    (x : ℕ) → x < 2 ^ 32 → get32 (x % 256) (x / 2 ^ 8 % 256) (x / 2 ^ 16 % 256) (x / 2 ^ 24) ≡ x
get32-le32 x h = omega arith

get16-le16 : (x : ℕ) → x % 256 + 256 * (x / 256) ≡ x
get16-le16 x = omega arith

take_entry-bytes :
    (ip rtt sent received : ℕ) (rest : List ℕ)
    → take_entry (entry_bytes ip rtt sent received rest)
      ≡ some (
        record {
          ip_server = htonl ip;
          rtt_to_server = htonl rtt;
          sent_to_server = htons sent;
          received_to_server = htons received;
        },
        rest,
      )
unfolding take_entry
take_entry-bytes ip rtt sent received rest = rw (
  get32-le32 (htonl ip) (htonl-lt ip),
  get32-le32 (htonl rtt) (htonl-lt rtt),
  get16-le16 (htons sent),
  get16-le16 (htons received),
)

module _ {R : Type 0} where
  -- The servers that an advertisement names: those whose round trip time is known.
  abbrev pub live : ℕ → List (ServerInformation R) → List (ServerInformation R)
  live zero xs = []
  live (suc n) [] = []
  live (suc n) (x ∷ xs) = if x.rtt_time == max_rtt then live n xs else x ∷ live n xs

  abbrev pub AllInRange : ℕ → List (ServerInformation R) → Type 0
  AllInRange zero xs = Unit {0}
  AllInRange (suc n) [] = Unit {0}
  AllInRange (suc n) (x ∷ xs) = InRange x × AllInRange n xs

  length-advertise_loop :
      (n : ℕ) (xs : List (ServerInformation R))
      → length (advertise_loop n xs) ≡ 12 * length (live n xs) + 4
  unfolding advertise_loop
  length-advertise_loop zero xs = omega arith
  length-advertise_loop (suc n) [] = omega arith
  length-advertise_loop (suc n) (x ∷ xs) = elim (Bool-cases (x.rtt_time == max_rtt)) [
    | inl e ↦ rw e (length-advertise_loop n xs)
    | inr e ↦ rw e (omega (arith, length-advertise_loop n xs))
  ]

module _ {R : Type 0} (r : Rates R) where
  -- One report after the other: the address, the round trip time and a loss rate of each server, with
  -- `host` as the next hop. The rate is that of the two counters with their bytes swapped.
  abbrev pub learn_from : IpInfo → List (ServerInformation R) → Table R → Option (Table R)
  learn_from host [] t = some t
  learn_from host (x ∷ xs) t = do
    text ← ip_uint_into_str x.ip.uint
    t' ←
        update_learning_table r t (record { uint = x.ip.uint; str = text }) x.rtt_time
          (r.loss (htons x.ping_received) (htons x.ping_sent)) host
    learn_from host xs t'

  receive_entry-bytes :
      (host : IpInfo) (x : ServerInformation R) (t : Table R)
      → InRange x
      → receive_entry r host
          (record {
            ip_server = htonl x.ip.uint;
            rtt_to_server = htonl x.rtt_time;
            sent_to_server = htons x.ping_sent;
            received_to_server = htons x.ping_received;
          })
          t
        ≡ (do
          text ← ip_uint_into_str x.ip.uint
          update_learning_table r t
              (record { uint = x.ip.uint; str = text })
              x.rtt_time
              (r.loss (htons x.ping_received) (htons x.ping_sent))
              host)
  unfolding receive_entry
  receive_entry-bytes host x t h =
      let small : x.rtt_time % 2 ^ 16 ≡ x.rtt_time = omega arith in
      rw (ntohl-htonl x.ip.uint h.ip_lt, ntohl-htonl x.rtt_time (omega arith), small)

  receive_entries-step :
      (n : ℕ) (host : IpInfo) (x : ServerInformation R) (rest : List ℕ) (t : Table R)
      → InRange x
      → receive_entries r
          (suc n)
          host
          (entry_bytes x.ip.uint x.rtt_time x.ping_sent x.ping_received rest)
          t
        ≡ (do
          text ← ip_uint_into_str x.ip.uint
          t' ←
              update_learning_table r t
                (record { uint = x.ip.uint; str = text })
                x.rtt_time
                (r.loss (htons x.ping_received) (htons x.ping_sent))
                host
          receive_entries r n host rest t')
  unfolding receive_entries
  receive_entries-step n host x rest t h =
      rw
        (
          take_entry-bytes x.ip.uint x.rtt_time x.ping_sent x.ping_received rest,
          receive_entry-bytes host x t h,
        )
        (bind_assoc (ip_uint_into_str x.ip.uint) _ _)

  receive_entries-advertise_loop :
      (n : ℕ) (xs : List (ServerInformation R)) (host : IpInfo) (t : Table R)
      → AllInRange n xs
      → receive_entries r (length (live n xs)) host (advertise_loop n xs) t
        ≡ learn_from host (live n xs) t
  unfolding receive_entries advertise_loop
  receive_entries-advertise_loop zero xs host t h = refl
  receive_entries-advertise_loop (suc n) [] host t h = refl
  receive_entries-advertise_loop (suc n) (x ∷ xs) host t (hx, h) =
      elim (Bool-cases (x.rtt_time == max_rtt)) [
        | inl e ↦ rw e (receive_entries-advertise_loop n xs host t h)
        | inr e ↦ rw e (
            receive_entries-step (length (live n xs)) host x (advertise_loop n xs) t hx
            ∙ bind_congr (ip_uint_into_str x.ip.uint) _ _ λ text.
              bind_congr
                (update_learning_table r t (record { uint = x.ip.uint; str = text }) x.rtt_time
                  (r.loss (htons x.ping_received) (htons x.ping_sent)) host)
                _ _ λ t'. receive_entries-advertise_loop n xs host t' h)
      ]

  -- A node that receives the payload that `advertise_data` builds reads one entry for each of the
  -- sender's first `number_of_servers` servers whose round trip time is known, and learns of each
  -- its address and that time. As the loss rate it learns that of the sender's two counters with
  -- the bytes of each swapped. The fields of these servers are taken to be in range: a uint32_t
  -- address, and a uint16_t time and counters.
  pub receive-advertise_data :
      (sender t : Table R) (ip_src : ℕ)
      → AllInRange sender.number_of_servers sender.server_infoes
      → receive_advertise_entries r
          (advertise_data sender)
          (length (advertise_data sender))
          ip_src
          t
        ≡ (do
          text ← ip_uint_into_str ip_src
          learn_from
              (record { uint = ip_src; str = text })
              (live sender.number_of_servers sender.server_infoes)
              t)
  unfolding receive_advertise_entries advertise_data
  receive-advertise_data sender t ip_src h =
      let size = length-advertise_loop sender.number_of_servers sender.server_infoes in
      let count : rounds (length (advertise_loop sender.number_of_servers sender.server_infoes))
          ≡ length (live sender.number_of_servers sender.server_infoes) =
        omega arith in
      bind_congr (ip_uint_into_str ip_src) _ _ λ text. rw count (
        receive_entries-advertise_loop sender.number_of_servers sender.server_infoes
          (record { uint = ip_src; str = text }) t h)
