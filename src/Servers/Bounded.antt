-- ===== src/Servers/Bounded.antt =====
-- How the operations of the table change the servers that it knows.
use resilient_overlay_networ.Base.{
  ℕ, ◌+◌, ◌≤◌, ◌≡◌, refl, ap, sym, ◌∙◌, inl, inr, List, [], ◌∷◌, ◌++◌, none, some, ltb, length,
  arith, Bool-cases, Option-cases, bind_some, ltb→lt,
}
use mathlib.Core.List.{append_assoc, append-nil}
use resilient_overlay_networ.Servers.{
  IpInfo, ServerInformation, Rates, Table, for_first, modify, get_index_by_ip, fresh_entry,
  insert_into_server_infoes, learn, update_learning_table,
}
use resilient_overlay_networ.Servers.Index.{get_index_by_ip_lem}
use resilient_overlay_networ.Servers.Known.{
  Distinct, Distinct-snoc, length-modify, length-for_first, known_loop, known, known-modify,
  known-for_first, known-extend_add, unseen,
}

module _ {R : Type 0} where
  -- The counters stay within the array, and no server is known twice.
  pub record IsWell (t : Table R) : Type 0 where
    pub own_le : t.number_of_servers ≤ t.number_of_all_servers
    pub all_le : t.number_of_all_servers ≤ length t.server_infoes
    pub distinct : Distinct (known t)

  -- From one table to the other servers were added behind the others, and nothing else.
  pub record Extends (t t' : Table R) : Type 0 where
    pub learnt : List ℕ
    pub known_lem : known t' ≡ known t ++ learnt
    pub same_length : length t'.server_infoes ≡ length t.server_infoes
    pub same_servers : t'.number_of_servers ≡ t.number_of_servers
    pub same_gateway : t'.ip_gateway ≡ t.ip_gateway
    pub stays : IsWell t → IsWell t'

  pub Extends-self : (t : Table R) → Extends t t
  Extends-self t = record {
    learnt = [];
    known_lem = sym (append-nil (known t));
    same_length = refl;
    same_servers = refl;
    same_gateway = refl;
    stays = λ w. w;
  }

  pub Extends-then : {t u v : Table R} → Extends t u → Extends u v → Extends t v
  Extends-then {t} e f = record {
    learnt = e.learnt ++ f.learnt;
    known_lem =
        f.known_lem
        ∙ ap (λ l. l ++ f.learnt) e.known_lem
        ∙ append_assoc (known t) e.learnt f.learnt;
    same_length = f.same_length ∙ e.same_length;
    same_servers = f.same_servers ∙ e.same_servers;
    same_gateway = f.same_gateway ∙ e.same_gateway;
    stays = λ w. f.stays (e.stays w);
  }

  -- A table with other entries of the same addresses.
  pub Extends-entries :
      (t : Table R) (xs : List (ServerInformation R))
      → length xs ≡ length t.server_infoes
      → known_loop t.number_of_all_servers xs ≡ known t
      → Extends t (record t { server_infoes = xs })
  Extends-entries t xs l k = record {
    learnt = [];
    known_lem = k ∙ sym (append-nil (known t));
    same_length = l;
    same_servers = refl;
    same_gateway = refl;
    stays = λ w. record {
      own_le = w.own_le;
      all_le = omega (arith, w.all_le);
      distinct = rw k w.distinct;
    };
  }

  pub modify-Extends :
      (t : Table R) (i : ℕ) (f : ServerInformation R → ServerInformation R)
      → ((s : ServerInformation R) → (f s).ip.uint ≡ s.ip.uint)
      → Extends t (record t { server_infoes = modify i f t.server_infoes })
  modify-Extends t i f keep =
      Extends-entries t (modify i f t.server_infoes) (length-modify i f t.server_infoes)
        (known-modify t.number_of_all_servers i f t.server_infoes keep)

  pub for_first-Extends :
      (t : Table R) (k : ℕ) (f : ServerInformation R → ServerInformation R)
      → ((s : ServerInformation R) → (f s).ip.uint ≡ s.ip.uint)
      → Extends t (record t { server_infoes = for_first k f t.server_infoes })
  for_first-Extends t k f keep =
      Extends-entries t (for_first k f t.server_infoes) (length-for_first k f t.server_infoes)
        (known-for_first t.number_of_all_servers k f t.server_infoes keep)

module _ {R : Type 0} (r : Rates R) where
  insert-Extends :
      (t t' : Table R) (ip : IpInfo)
      → get_index_by_ip t ip.uint ≡ none
      → insert_into_server_infoes r t ip ≡ some t'
      → Extends t t'
  unfolding insert_into_server_infoes
  insert-Extends t t' ip new e =
      elim (Bool-cases (ltb t.number_of_all_servers (length t.server_infoes))) [
        | inl room ↦
            let xs = modify t.number_of_all_servers (fresh_entry r ip) t.server_infoes in
            let lt = ltb→lt t.number_of_all_servers (length t.server_infoes) room in
            let whole =
              known-extend_add t.number_of_all_servers ip.uint (fresh_entry r ip) t.server_infoes lt
                (λ s. refl) in
            let long = length-modify t.number_of_all_servers (fresh_entry r ip) t.server_infoes in
            let absent =
              unseen t.number_of_all_servers ip.uint t.server_infoes
                (sym (get_index_by_ip_lem t ip.uint) ∙ new) in
            let t1 : Table R = record t {
              server_infoes = xs;
              number_of_all_servers = t.number_of_all_servers + 1;
            } in
            let same : t1 ≡ t' = cc (rw (insert_into_server_infoes, room) at e) in
            rw (sym same) (record {
              learnt = ip.uint ∷ [];
              known_lem = whole;
              same_length = long;
              same_servers = refl;
              same_gateway = refl;
              stays = λ w. record {
                own_le = omega (arith, w.own_le);
                all_le = omega (arith, long);
                distinct = rw whole (Distinct-snoc (known t) ip.uint w.distinct absent);
              };
            })
        | inr full ↦ absurd (cc (rw (insert_into_server_infoes, full) at e))
      ]

  pub update_learning_table-Extends :
      (t t' : Table R) (server ip : IpInfo) (rtt : ℕ) (rate : R)
      → update_learning_table r t server rtt rate ip ≡ some t'
      → Extends t t'
  unfolding update_learning_table learn
  update_learning_table-Extends t t' server ip rtt rate e =
      elim (Option-cases (get_index_by_ip t server.uint)) [
        | inl new ↦
            let (t1, at, e') =
              bind_some (insert_into_server_infoes r t server) _
                (rw (update_learning_table, new) at e) in
            let t2 : Table R = record t1 {
              server_infoes = modify t.number_of_all_servers (learn r ip rtt rate) t1.server_infoes;
            } in
            let same : t2 ≡ t' = cc e' in
            let both =
              Extends-then (insert-Extends t t1 server new at)
                (modify-Extends t1 t.number_of_all_servers (learn r ip rtt rate) (λ s. refl)) in
            rw same at both
        | inr (id, old) ↦
            let t2 : Table R = record t {
              server_infoes = modify id (learn r ip rtt rate) t.server_infoes;
            } in
            let same : t2 ≡ t' = cc (rw (update_learning_table, old) at e) in
            let one = modify-Extends t id (learn r ip rtt rate) (λ s. refl) in rw same at one
      ]
