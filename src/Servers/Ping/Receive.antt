-- ===== src/Servers/Ping/Receive.antt =====
-- What an echo reply changes.
use resilient_overlay_networ.Base.{
  ℕ, zero, suc, ◌+◌, ◌<◌, ◌≤◌, ◌≡◌, ◌≢◌, refl, sym, ap, ◌∙◌, inl, inr, List, [], ◌∷◌, some, true,
  false, ◌==◌, get_elem?, get_elem?-lt, length, arith, Bool-cases, ==→eq, eq→==,
}
use resilient_overlay_networ.Servers.{
  IpInfo, ServerInformation, Rates, Table, elapsed_ms, modify, learn, get_index_by_ip,
  update_learning_table,
}
use resilient_overlay_networ.Servers.Index.{first_index, get_index_by_ip_lem}
use resilient_overlay_networ.Servers.Update.{length-modify}
use resilient_overlay_networ.Servers.Ping.{
  answer_entry, is_answered, answer, receive_loop, receive_ping_packet,
}

get_elem?-modify_ne {ℓ} :
    {A : Type ℓ} (i j : ℕ) (f : A → A) (xs : List A)
    → i ≢ j
    → get_elem? (modify i f xs) j ≡ get_elem? xs j
unfolding modify
get_elem?-modify_ne i j f [] h = refl
get_elem?-modify_ne zero zero f (x ∷ xs) h = absurd (h refl)
get_elem?-modify_ne zero (suc j) f (x ∷ xs) h = refl
get_elem?-modify_ne (suc i) zero f (x ∷ xs) h = refl
get_elem?-modify_ne (suc i) (suc j) f (x ∷ xs) h = get_elem?-modify_ne i j f xs (λ e. h (ap suc e))

modify-twice {ℓ} :
    {A : Type ℓ} (i : ℕ) (f g : A → A) (xs : List A)
    → modify i g (modify i f xs) ≡ modify i (λ x. g (f x)) xs
unfolding modify
modify-twice i f g [] = refl
modify-twice zero f g (x ∷ xs) = refl
modify-twice (suc i) f g (x ∷ xs) = ap (◌∷◌ x) (modify-twice i f g xs)

module _ {R : Type 0} where
  first_index-modify :
      (n : ℕ) (xs : List (ServerInformation R)) (ip j : ℕ)
      (f : ServerInformation R → ServerInformation R)
      → ((s : ServerInformation R) → (f s).ip.uint ≡ s.ip.uint)
      → first_index n (modify j f xs) ip ≡ first_index n xs ip
  unfolding modify
  first_index-modify zero xs ip j f keep = refl
  first_index-modify (suc n) [] ip j f keep = refl
  first_index-modify (suc n) (x ∷ xs) ip zero f keep = rw (keep x)
  first_index-modify (suc n) (x ∷ xs) ip (suc j) f keep = rw (first_index-modify n xs ip j f keep)

module _ {R : Type 0} (r : Rates R) where
  answer_entry-ip : (p : ℕ) (s : ServerInformation R) → (answer_entry r p s).ip ≡ s.ip
  unfolding answer_entry
  answer_entry-ip p s = ground arith

  -- The entry after the reply has been counted and learnt as a path through the gateway.
  abbrev pub answered : IpInfo → ℕ → ServerInformation R → ServerInformation R → ServerInformation R
  answered gateway now s x =
      let p = elapsed_ms now s.ping_send_time in
      learn r gateway (answer_entry r p s).rtt_time (answer_entry r p s).ping_lost_rate
        (answer_entry r p x)

  still_found :
      (i p : ℕ) (s : ServerInformation R) (t : Table R)
      → get_index_by_ip t s.ip.uint ≡ some i
      → get_index_by_ip
          (record t { server_infoes = modify i (answer_entry r p) t.server_infoes })
          (answer_entry r p s).ip.uint
        ≡ some i
  still_found i p s t e =
      let t' : Table R = record t { server_infoes = modify i (answer_entry r p) t.server_infoes } in
      rw (answer_entry-ip p s) (
        get_index_by_ip_lem t' s.ip.uint
        ∙ first_index-modify t.number_of_all_servers t.server_infoes s.ip.uint i (answer_entry r p)
            (λ x. ap (λ (a : IpInfo). a.uint) (answer_entry-ip p x))
        ∙ sym (get_index_by_ip_lem t s.ip.uint)
        ∙ e)

  answer_lem :
      (i : ℕ) (s : ServerInformation R) (now : ℕ) (t : Table R)
      → get_index_by_ip t s.ip.uint ≡ some i
      → answer r i s now t
        ≡ some (record t { server_infoes = modify i (answered t.ip_gateway now s) t.server_infoes })
  unfolding answer update_learning_table
  answer_lem i s now t e =
      rw
        (still_found i (elapsed_ms now s.ping_send_time) s t e, update_learning_table, modify-twice)

  -- No entry from `i` on, for `n` rounds, waits for this reply.
  abbrev pub Quiet : ℕ → ℕ → ℕ → ℕ → Table R → Type 0
  Quiet n i ip sequence_id t =
      (j : ℕ) (s : ServerInformation R)
      → i ≤ j
      → j < i + n
      → get_elem? t.server_infoes j ≡ some s
      → is_answered r ip sequence_id s ≡ false

  loop-Quiet :
      (n i ip now sequence_id : ℕ) (t : Table R)
      → i + n ≤ length t.server_infoes
      → Quiet n i ip sequence_id t
      → receive_loop r n i ip now sequence_id t ≡ some t
  unfolding receive_loop
  loop-Quiet zero i ip now q t h quiet = refl
  loop-Quiet (suc n) i ip now q t h quiet =
      let (s, at) = get_elem?-lt t.server_infoes i (omega arith) in
      let skip = quiet i s (omega arith) (omega arith) at in
      rw (at, skip)
        (loop-Quiet n (i + 1) ip now q t (omega arith)
          (λ j x lo hi. quiet j x (omega arith) (omega arith)))

  -- A reply that none of the first `number_of_servers` entries waits for, because its address or
  -- its sequence number is another, leaves the table as it is; the array is taken to have these
  -- entries.
  pub receive_ping_packet-stale :
      (ip now sequence_id : ℕ) (t : Table R)
      → t.number_of_servers ≤ length t.server_infoes
      → Quiet t.number_of_servers 0 ip sequence_id t
      → receive_ping_packet r ip now sequence_id t ≡ some t
  unfolding receive_ping_packet
  receive_ping_packet-stale ip now q t h quiet =
      loop-Quiet t.number_of_servers 0 ip now q t (omega arith) quiet

  -- Entry `id`, and no other of these, waits for this reply.
  abbrev pub WaitsAlone : ℕ → ℕ → ℕ → ℕ → ℕ → Table R → Type 0
  WaitsAlone n i id ip sequence_id t =
      (j : ℕ) (s : ServerInformation R)
      → i ≤ j
      → j < i + n
      → j ≢ id
      → get_elem? t.server_infoes j ≡ some s
      → is_answered r ip sequence_id s ≡ false

  pub match_loop :
      (n i id ip now q : ℕ) (s : ServerInformation R) (t : Table R)
      → i + n ≤ length t.server_infoes
      → i ≤ id
      → id < i + n
      → get_elem? t.server_infoes id ≡ some s
      → is_answered r ip q s ≡ true
      → get_index_by_ip t s.ip.uint ≡ some id
      → WaitsAlone n i id ip q t
      → receive_loop r n i ip now q t
        ≡ some
            (record t { server_infoes = modify id (answered t.ip_gateway now s) t.server_infoes })
  unfolding receive_loop
  match_loop zero i id ip now q s t len lo hi at waits found alone = absurd (omega arith)
  match_loop (suc n) i id ip now q s t len lo hi at waits found alone =
      elim (Bool-cases (i == id)) [
        | inl e ↦
            let here : i ≡ id = ==→eq i id e in
            let t' : Table R = record t {
              server_infoes = modify id (answered t.ip_gateway now s) t.server_infoes;
            } in
            rw (here, at, waits, answer_lem id s now t found)
              (loop-Quiet n (id + 1) ip now q t'
                (omega (arith, length-modify {0} id (answered t.ip_gateway now s) t.server_infoes))
                (λ j x jlo jhi jat. alone j x (omega arith) (omega arith) (omega arith) (
                  sym (
                    get_elem?-modify_ne id j (answered t.ip_gateway now s) t.server_infoes
                      (omega arith))
                  ∙ jat)))
        | inr e ↦
            let apart : i ≢ id = λ h. cc (sym e ∙ eq→== i id h) in
            let (x, xat) = get_elem?-lt t.server_infoes i (omega arith) in
            rw (xat, alone i x (omega arith) (omega arith) apart xat)
              (match_loop n (i + 1) id ip now q s t (omega arith) (omega arith) (omega arith) at
                waits found (λ j y jlo jhi. alone j y (omega arith) (omega arith)))
      ]
