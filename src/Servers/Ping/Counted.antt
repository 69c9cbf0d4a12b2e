-- ===== src/Servers/Ping/Counted.antt =====
-- What an echo reply leaves in the entry that waited for it, field by field.
use resilient_overlay_networ.Base.{
  ℕ, zero, suc, ◌+◌, ◌/◌, ◌%◌, ◌^◌, ◌<◌, ◌≤◌, ◌≡◌, ◌≢◌, refl, ap, ◌∙◌, inl, inr, List, [], ◌∷◌,
  some, true, false, ◌==◌, ◌||◌, ltb, if◌then◌else◌, get_elem?, set, length, arith, Bool-cases,
  ==→eq, eq→==, ne→==,
}
use resilient_overlay_networ.Servers.{
  IpInfo, RoutingInfo, ServerInformation, Rates, Table, elapsed_ms, modify, learn, learn_rtt,
  learn_lost, get_index_by_ip,
}
use resilient_overlay_networ.Servers.Index.{first_index, get_index_by_ip_lem, some-eq}
use resilient_overlay_networ.Servers.Ping.{answer_entry, is_answered, receive_ping_packet}
use resilient_overlay_networ.Servers.Ping.Receive.{answered, match_loop}

modify-set :
    {A : Type 0} (i : ℕ) (f : A → A) (xs : List A) (x : A)
    → get_elem? xs i ≡ some x
    → modify i f xs ≡ set xs i (f x)
unfolding modify
modify-set i f [] x e = cc
modify-set zero f (y ∷ xs) x e = let same : y ≡ x = some-eq e in rw same refl
modify-set (suc i) f (y ∷ xs) x e = ap (◌∷◌ y) (modify-set i f xs x e)

module _ {R : Type 0} where
  first_index-first :
      (n id ip : ℕ) (xs : List (ServerInformation R)) (s : ServerInformation R)
      → id < n
      → get_elem? xs id ≡ some s
      → s.ip.uint ≡ ip
      → ((j : ℕ) (x : ServerInformation R) → j < id → get_elem? xs j ≡ some x → x.ip.uint ≢ ip)
      → first_index n xs ip ≡ some id
  first_index-first zero id ip xs s h at e before = absurd (omega arith)
  first_index-first (suc n) id ip [] s h at e before = cc
  first_index-first (suc n) zero ip (x ∷ xs) s h at e before =
      let same : x ≡ s = some-eq at in rw (same, eq→== s.ip.uint ip e) refl
  first_index-first (suc n) (suc id) ip (x ∷ xs) s h at e before =
      rw
        (
          ne→== x.ip.uint ip (before 0 x (omega arith) refl),
          first_index-first n id ip xs s (omega arith) at e
              (λ j y lt. before (suc j) y (omega arith)),
        )
        refl

module _ {R : Type 0} (r : Rates R) where
  -- The path through the gateway with this time and this rate, against what was learnt.
  abbrev pub learnt_path : IpInfo → ℕ → R → RoutingInfo R → RoutingInfo R
  learnt_path gateway rtt rate l =
      let sooner = gateway.uint == l.ip_next_hop_rtt.uint || ltb rtt l.rtt_time in
      let safer = gateway.uint == l.ip_next_hop_lost.uint || r.gtb l.lost_rate rate in
      record {
        ip_next_hop_rtt = if sooner then gateway else l.ip_next_hop_rtt;
        ip_next_hop_lost = if safer then gateway else l.ip_next_hop_lost;
        rtt_time = if sooner then rtt else l.rtt_time;
        lost_rate = if safer then rate else l.lost_rate;
        is_active = true;
      }

  learn-path :
      (gateway : IpInfo) (rtt : ℕ) (rate : R) (s : ServerInformation R)
      → learn r gateway rtt rate s
        ≡ record s { learning_table = learnt_path gateway rtt rate s.learning_table }
  unfolding learn learn_rtt learn_lost
  learn-path gateway rtt rate s =
      let l = s.learning_table in
      let sooner = gateway.uint == l.ip_next_hop_rtt.uint || ltb rtt l.rtt_time in
      let safer = gateway.uint == l.ip_next_hop_lost.uint || r.gtb l.lost_rate rate in
      elim (Bool-cases sooner) [
        | inl e ↦ elim (Bool-cases safer) [ inl f ↦ rw (e, f) refl | inr f ↦ rw (e, f) refl ]
        | inr e ↦ elim (Bool-cases safer) [ inl f ↦ rw (e, f) refl | inr f ↦ rw (e, f) refl ]
      ]

  -- The entry with the reply counted, and averaged in where a time was known.
  abbrev pub counted : ℕ → ServerInformation R → ServerInformation R
  counted p s =
      let sent = if s.rtt_time == 65535 then (s.ping_sent + 1) % 2 ^ 16 else s.ping_sent in
      let received = (s.ping_received + 1) % 2 ^ 16 in
      record s {
        rtt_time = if s.rtt_time == 65535 then p else (s.rtt_time + p) / 2;
        ping_sent = sent;
        ping_received = received;
        is_received_last_ping = true;
        ping_lost_numbers = 0;
        ping_lost_rate = r.loss received sent;
      }

  answer_entry-counted : (p : ℕ) (s : ServerInformation R) → answer_entry r p s ≡ counted p s
  unfolding answer_entry
  answer_entry-counted p s = elim (Bool-cases (s.rtt_time == 65535)) [
    | inl e ↦ rw e refl
    | inr e ↦ rw e refl
  ]

  answered-counted :
      (gateway : IpInfo) (now : ℕ) (s : ServerInformation R)
      → let c = counted (elapsed_ms now s.ping_send_time) s in
        answered r gateway now s s ≡ record c {
          learning_table = learnt_path gateway c.rtt_time c.ping_lost_rate s.learning_table;
        }
  answered-counted gateway now s =
      let p = elapsed_ms now s.ping_send_time in
      rw (answer_entry-counted p s)
        (learn-path gateway (counted p s).rtt_time (counted p s).ping_lost_rate (counted p s))

  not_waiting :
      (ip q : ℕ) (x : ServerInformation R)
      → (x.ip.uint ≡ ip → q + 1 ≢ x.sequence_id)
      → is_answered r ip q x ≡ false
  not_waiting ip q x apart = elim (Bool-cases (x.ip.uint == ip)) [
    | inl e ↦ rw (e, ne→== _ _ (apart (==→eq _ _ e))) refl
    | inr e ↦ rw e refl
  ]

  -- A reply from an address with a sequence number that only the entry `id` of the first
  -- `number_of_servers` waits for, which is the first in the table with that address. That entry alone is
  -- changed. One more reply is counted there, the misses are forgotten, and the time since the ping is
  -- averaged with the one known; where the server was down, it is taken as it is and the ping is counted
  -- as sent. The loss rate is that of these two counters, and the path through the gateway is learnt with
  -- this time and this rate, each if the gateway is the next hop already or the path is better. The array
  -- is taken to have these entries, and the table to count them all.
  pub receive_ping_packet-match :
      (id ip now sequence_id : ℕ) (s : ServerInformation R) (t : Table R)
      → t.number_of_servers ≤ length t.server_infoes
      → t.number_of_servers ≤ t.number_of_all_servers
      → id < t.number_of_servers
      → get_elem? t.server_infoes id ≡ some s
      → s.ip.uint ≡ ip
      → sequence_id + 1 ≡ s.sequence_id
      → ((j : ℕ) (x : ServerInformation R)
          → j < t.number_of_servers
          → j ≢ id
          → get_elem? t.server_infoes j ≡ some x
          → x.ip.uint ≡ ip
          → sequence_id + 1 ≢ x.sequence_id)
      → ((j : ℕ) (x : ServerInformation R)
          → j < id
          → get_elem? t.server_infoes j ≡ some x
          → x.ip.uint ≢ ip)
      → let p = elapsed_ms now s.ping_send_time in
        let rtt = if s.rtt_time == 65535 then p else (s.rtt_time + p) / 2 in
        let sent = if s.rtt_time == 65535 then (s.ping_sent + 1) % 2 ^ 16 else s.ping_sent in
        let received = (s.ping_received + 1) % 2 ^ 16 in
        let rate = r.loss received sent in
        receive_ping_packet r ip now sequence_id t
        ≡ some (record t {
          server_infoes = set t.server_infoes id (record s {
            rtt_time = rtt;
            ping_sent = sent;
            ping_received = received;
            is_received_last_ping = true;
            ping_lost_numbers = 0;
            ping_lost_rate = rate;
            learning_table = learnt_path t.ip_gateway rtt rate s.learning_table;
          });
        })
  unfolding receive_ping_packet
  receive_ping_packet-match id ip now q s t len all h at here waits alone first =
      let found : get_index_by_ip t s.ip.uint ≡ some id =
        get_index_by_ip_lem t s.ip.uint
        ∙ first_index-first t.number_of_all_servers id s.ip.uint t.server_infoes s (omega arith) at
            refl (λ j x lt xat e. first j x lt xat (e ∙ here)) in
      let waiting : is_answered r ip q s ≡ true =
        rw (eq→== s.ip.uint ip here, eq→== (q + 1) s.sequence_id waits) refl in
      match_loop r t.number_of_servers 0 id ip now q s t (omega arith) (omega arith) (omega arith)
        at waiting found (λ j x lo hi ne xat. not_waiting ip q x (alone j x (omega arith) ne xat))
      ∙ ap (λ xs. some (record t { server_infoes = xs }))
          (modify-set id (answered r t.ip_gateway now s) t.server_infoes s at
            ∙ ap (set t.server_infoes id) (answered-counted t.ip_gateway now s))
