-- ===== src/Servers/Update.antt =====
-- `update_learning_table` as an operation on the map from addresses to entries.
use mathlib.Core.Option
use resilient_overlay_networ.Base.{
  ℕ, zero, suc, ◌≤◌, ◌≡◌, refl, sym, ap, ◌∙◌, List, [], ◌∷◌, none, some, ◌==◌, if◌then◌else◌,
  length, le→ltb,
}
use resilient_overlay_networ.Servers.{
  IpInfo, ServerInformation, Rates, Table, get_index_by_ip, modify, learn,
  insert_into_server_infoes, update_learning_table,
}
use resilient_overlay_networ.Servers.Index.{view, get_index_by_ip_lem, view-modify}

pub length-modify {ℓ} :
    {A : Type ℓ} (i : ℕ) (f : A → A) (xs : List A) → length (modify i f xs) ≡ length xs
unfolding modify
length-modify i f [] = refl
length-modify zero f (x ∷ xs) = refl
length-modify (suc i) f (x ∷ xs) = ap suc (length-modify i f xs)

module _ {R : Type 0} (r : Rates R) where
  learn-ip :
      (ip : IpInfo) (rtt : ℕ) (rate : R) (s : ServerInformation R)
      → (learn r ip rtt rate s).ip ≡ s.ip
  unfolding learn
  learn-ip ip rtt rate s = refl

  -- A report about a server in the table succeeds, changes the entry at its address by `learn`, and
  -- leaves what is found at every other address as it is.
  pub update_learning_table-known :
      (t : Table R) (server ip : IpInfo) (rtt : ℕ) (rate : R) (id : ℕ)
      → get_index_by_ip t server.uint ≡ some id
      → (t' : Table R) × (update_learning_table r t server rtt rate ip ≡ some t')
        × ((q : ℕ)
            → view t' q ≡ (
                if q == server.uint
                then Option.map (learn r ip rtt rate) (view t server.uint)
                else view t q))
  unfolding update_learning_table
  update_learning_table-known t server ip rtt rate id e = (
    record t { server_infoes = modify id (learn r ip rtt rate) t.server_infoes },
    rw (e, update_learning_table),
    λ q.
        view-modify t.number_of_all_servers t.server_infoes server.uint id q (learn r ip rtt rate)
          (λ s. ap (λ (i : IpInfo). i.uint) (learn-ip ip rtt rate s))
          (sym (get_index_by_ip_lem t server.uint) ∙ e),
  )

  -- With the array full, a report about a server that is not in the table writes behind its end.
  pub update_learning_table-full :
      (t : Table R) (server ip : IpInfo) (rtt : ℕ) (rate : R)
      → get_index_by_ip t server.uint ≡ none
      → length t.server_infoes ≤ t.number_of_all_servers
      → update_learning_table r t server rtt rate ip ≡ none
  unfolding update_learning_table insert_into_server_infoes
  update_learning_table-full t server ip rtt rate e h = rw (e, update_learning_table, le→ltb _ _ h)
