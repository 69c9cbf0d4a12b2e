-- ===== src/Adverts/Bounds.antt =====
-- Payloads that end inside an entry.
use resilient_overlay_networ.Base.{
  ℕ, zero, suc, ◌+◌, ◌-◌, ◌*◌, ◌%◌, ◌^◌, ◌<◌, ◌≡◌, ◌≢◌, refl, inl, inr, List, ◌∷◌, Option, none,
  some, ◌>>=◌, length, arith, Option-cases,
}
use resilient_overlay_networ.Address.{ip_uint_into_str}
use resilient_overlay_networ.Servers.{IpInfo, Rates, Table}
use resilient_overlay_networ.Adverts.{
  Entry, take_entry, receive_entry, receive_entries, receive_advertise_entries,
}

-- An entry takes twelve bytes.
take_entry-length :
    (m : List ℕ) (e : Entry) (rest : List ℕ)
    → take_entry m ≡ some (e, rest)
    → length m ≡ length rest + 12
unfolding take_entry
take_entry-length (a ∷ b ∷ c ∷ d ∷ e ∷ f ∷ g ∷ h ∷ i ∷ j ∷ k ∷ l ∷ m) x rest eq = ground arith
take_entry-length m x rest eq = cc

bind-none {ℓ} :
    {A B : Type ℓ} (o : Option A) (f : A → Option B) → ((a : A) → f a ≡ none) → (o >>= f) ≡ none
bind-none none f h = refl
bind-none (some a) f h = h a

module _ {R : Type 0} (r : Rates R) where
  receive_entries-short :
      (n : ℕ) (host : IpInfo) (m : List ℕ) (t : Table R)
      → length m < 12 * n
      → receive_entries r n host m t ≡ none
  unfolding receive_entries
  receive_entries-short zero host m t h = absurd (omega arith)
  receive_entries-short (suc n) host m t h = elim (Option-cases (take_entry m)) [
    | inl e ↦ rw e
    | inr ((entry, rest), e) ↦ rw e (
        bind-none (receive_entry r host entry t) _ λ t'.
          receive_entries-short n host rest t' (omega (arith, take_entry-length m entry rest e)))
  ]

  -- The loop goes on while a byte is left before the last four, and reads twelve: on a payload of
  -- five or more bytes, fewer than 2 ^ 31, that is one to seven bytes longer than whole entries and
  -- the padding, it reads behind the frame.
  pub receive_advertise_overread :
      (payload : List ℕ) (ip_src : ℕ) (t : Table R)
      → 4 < length payload
      → length payload < 2 ^ 31
      → (length payload - 4) % 12 ≢ 0
      → (length payload - 4) % 12 < 8
      → receive_advertise_entries r payload (length payload) ip_src t ≡ none
  unfolding receive_advertise_entries
  receive_advertise_overread payload ip_src t h b e s =
      bind-none (ip_uint_into_str ip_src) _
        λ text. receive_entries-short _ _ payload t (omega arith)
