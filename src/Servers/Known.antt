-- ===== src/Servers/Known.antt =====
-- The servers that a table knows, in their order.
use resilient_overlay_networ.Base.{
  ℕ, zero, suc, ◌+◌, ◌<◌, ◌≡◌, ◌≢◌, refl, ap, ◌∙◌, inl, inr, List, [], ◌∷◌, ◌++◌, none, ◌==◌,
  length, All, arith, Bool-cases, Option-cases, ==→ne,
}
use resilient_overlay_networ.Servers.{ServerInformation, Table, for_first, modify}
use resilient_overlay_networ.Servers.Index.{first_index}

-- No address twice.
abbrev pub Distinct : List ℕ → Type 0
Distinct [] = Unit {0}
Distinct (a ∷ rest) = All (λ b. a ≢ b) rest × Distinct rest

pub All-snoc : (P : ℕ → Type 0) (rest : List ℕ) (b : ℕ) → All P rest → P b → All P (rest ++ b ∷ [])
All-snoc P [] b h p = (p, tt)
All-snoc P (a ∷ rest) b (h, hs) p = (h, All-snoc P rest b hs p)

pub Distinct-snoc :
    (rest : List ℕ) (b : ℕ) → Distinct rest → All (λ a. a ≢ b) rest → Distinct (rest ++ b ∷ [])
Distinct-snoc [] b d h = (tt, tt)
Distinct-snoc (a ∷ rest) b (new, d) (h, hs) =
    (All-snoc (λ b. a ≢ b) rest b new h, Distinct-snoc rest b d hs)

pub length-modify {ℓ} :
    {A : Type ℓ} (i : ℕ) (f : A → A) (xs : List A) → length (modify i f xs) ≡ length xs
unfolding modify
length-modify i f [] = refl
length-modify zero f (x ∷ xs) = refl
length-modify (suc i) f (x ∷ xs) = ap suc (length-modify i f xs)

pub length-for_first {ℓ} :
    {A : Type ℓ} (n : ℕ) (f : A → A) (xs : List A) → length (for_first n f xs) ≡ length xs
unfolding for_first
length-for_first zero f xs = refl
length-for_first (suc n) f [] = refl
length-for_first (suc n) f (x ∷ xs) = ap suc (length-for_first n f xs)

module _ {R : Type 0} where
  -- The addresses of the first `n` entries.
  abbrev pub known_loop : ℕ → List (ServerInformation R) → List ℕ
  known_loop zero xs = []
  known_loop (suc n) [] = []
  known_loop (suc n) (x ∷ xs) = x.ip.uint ∷ known_loop n xs

  abbrev pub known : Table R → List ℕ
  known t = known_loop t.number_of_all_servers t.server_infoes

  pub known-modify :
      (n i : ℕ) (f : ServerInformation R → ServerInformation R) (xs : List (ServerInformation R))
      → ((s : ServerInformation R) → (f s).ip.uint ≡ s.ip.uint)
      → known_loop n (modify i f xs) ≡ known_loop n xs
  unfolding modify
  known-modify zero i f xs keep = refl
  known-modify (suc n) i f [] keep = refl
  known-modify (suc n) zero f (x ∷ xs) keep = ap (λ a. a ∷ known_loop n xs) (keep x)
  known-modify (suc n) (suc i) f (x ∷ xs) keep =
      ap (λ l. x.ip.uint ∷ l) (known-modify n i f xs keep)

  pub known-for_first :
      (n k : ℕ) (f : ServerInformation R → ServerInformation R) (xs : List (ServerInformation R))
      → ((s : ServerInformation R) → (f s).ip.uint ≡ s.ip.uint)
      → known_loop n (for_first k f xs) ≡ known_loop n xs
  unfolding for_first
  known-for_first zero k f xs keep = refl
  known-for_first (suc n) zero f xs keep = refl
  known-for_first (suc n) (suc k) f [] keep = refl
  known-for_first (suc n) (suc k) f (x ∷ xs) keep =
      ap (λ a. a ∷ known_loop n (for_first k f xs)) (keep x)
      ∙ ap (λ l. x.ip.uint ∷ l) (known-for_first n k f xs keep)

  known-extend :
      (n ip : ℕ) (f : ServerInformation R → ServerInformation R) (xs : List (ServerInformation R))
      → n < length xs
      → ((s : ServerInformation R) → (f s).ip.uint ≡ ip)
      → known_loop (suc n) (modify n f xs) ≡ known_loop n xs ++ ip ∷ []
  unfolding modify
  known-extend n ip f [] h at = absurd (omega arith)
  known-extend zero ip f (x ∷ xs) h at = ap (λ a. a ∷ []) (at x)
  known-extend (suc n) ip f (x ∷ xs) h at =
      ap (λ l. x.ip.uint ∷ l) (known-extend n ip f xs (omega arith) at)

  pub known-extend_add :
      (n ip : ℕ) (f : ServerInformation R → ServerInformation R) (xs : List (ServerInformation R))
      → n < length xs
      → ((s : ServerInformation R) → (f s).ip.uint ≡ ip)
      → known_loop (n + 1) (modify n f xs) ≡ known_loop n xs ++ ip ∷ []
  known-extend_add n ip f xs h at =
      let step : n + 1 ≡ suc n = omega arith in rw step (known-extend n ip f xs h at)

  pub unseen :
      (n ip : ℕ) (xs : List (ServerInformation R))
      → first_index n xs ip ≡ none
      → All (λ a. a ≢ ip) (known_loop n xs)
  unseen zero ip xs e = tt
  unseen (suc n) ip [] e = tt
  unseen (suc n) ip (x ∷ xs) e = elim (Bool-cases (x.ip.uint == ip)) [
    | inl same ↦ absurd (cc (rw same at e))
    | inr other ↦ elim (Option-cases (first_index n xs ip)) [
      | inl z ↦ (==→ne x.ip.uint ip other, unseen n ip xs z)
      | inr (j, z) ↦ absurd (cc (rw (other, z) at e))
    ]
  ]
