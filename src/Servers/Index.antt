-- ===== src/Servers/Index.antt =====
-- The table as a finite map from addresses to entries, and `get_index_by_ip` as a search in it.
use mathlib.Core.Option
use resilient_overlay_networ.Base.{
  ℕ, zero, suc, ◌+◌, ◌≡◌, refl, ap, ◌∙◌, inl, inr, List, [], ◌∷◌, Option, none, some, ◌==◌,
  if◌then◌else◌, arith, Bool-cases, get_elem?,
}
use resilient_overlay_networ.Servers.{ServerInformation, Table, index_loop, get_index_by_ip, modify}

shift :
    (i : ℕ) (o : Option ℕ)
    → Option.map (λ j. i + 1 + j) o ≡ Option.map (λ j. i + j) (Option.map suc o)
shift i none = refl
shift i (some j) = ap some (omega arith)

from_zero : (o : Option ℕ) → Option.map (λ j. 0 + j) o ≡ o
from_zero none = refl
from_zero (some j) = ap some (omega arith)

pub some-eq {ℓ} : {A : Type ℓ} {a b : A} → some a ≡ some b → a ≡ b
some-eq {A} {a} {b} e = cc

module _ {R : Type 0} where
  -- The first of the first `n` entries that has the address.
  abbrev pub view_loop : ℕ → List (ServerInformation R) → ℕ → Option (ServerInformation R)
  view_loop zero xs ip = none
  view_loop (suc n) [] ip = none
  view_loop (suc n) (x ∷ xs) ip = if x.ip.uint == ip then some x else view_loop n xs ip

  abbrev pub view : Table R → ℕ → Option (ServerInformation R)
  view t ip = view_loop t.number_of_all_servers t.server_infoes ip

  abbrev pub first_index : ℕ → List (ServerInformation R) → ℕ → Option ℕ
  first_index zero xs ip = none
  first_index (suc n) [] ip = none
  first_index (suc n) (x ∷ xs) ip =
      if x.ip.uint == ip then some 0 else Option.map suc (first_index n xs ip)

  index_loop_lem :
      (n : ℕ) (xs : List (ServerInformation R)) (ip i : ℕ)
      → index_loop n xs ip i ≡ Option.map (λ j. i + j) (first_index n xs ip)
  unfolding index_loop
  index_loop_lem zero xs ip i = refl
  index_loop_lem (suc n) [] ip i = refl
  index_loop_lem (suc n) (x ∷ xs) ip i = elim (Bool-cases (x.ip.uint == ip)) [
    | inl e ↦ rw e (ap some (omega arith))
    | inr e ↦ rw e (index_loop_lem n xs ip (i + 1) ∙ shift i (first_index n xs ip))
  ]

  pub get_index_by_ip_lem :
      (t : Table R) (ip : ℕ)
      → get_index_by_ip t ip ≡ first_index t.number_of_all_servers t.server_infoes ip
  unfolding get_index_by_ip
  get_index_by_ip_lem t ip =
      index_loop_lem t.number_of_all_servers t.server_infoes ip 0 ∙ from_zero _

  pub first_index-none :
      (n : ℕ) (xs : List (ServerInformation R)) (ip : ℕ)
      → first_index n xs ip ≡ none
      → view_loop n xs ip ≡ none
  first_index-none zero xs ip e = refl
  first_index-none (suc n) [] ip e = refl
  first_index-none (suc n) (x ∷ xs) ip e = ground (arith, first_index-none n xs ip)

  -- A change of the entry that is found, which keeps its address, is a change at that address.
  pub view-modify :
      (n : ℕ) (xs : List (ServerInformation R)) (ip j q : ℕ)
      (f : ServerInformation R → ServerInformation R)
      → ((s : ServerInformation R) → (f s).ip.uint ≡ s.ip.uint)
      → first_index n xs ip ≡ some j
      → view_loop n (modify j f xs) q
        ≡ (if q == ip then Option.map f (view_loop n xs ip) else view_loop n xs q)
  unfolding modify
  view-modify zero xs ip j q f keep e = cc
  view-modify (suc n) [] ip j q f keep e = cc
  view-modify (suc n) (x ∷ xs) ip zero q f keep e = ground (arith, keep x)
  view-modify (suc n) (x ∷ xs) ip (suc j) q f keep e =
      ground (arith, view-modify n xs ip j q f keep)

  -- A new entry behind the others is found at its own address, if that was not in the table.
  pub view-extend :
      (n : ℕ) (xs : List (ServerInformation R)) (ip q : ℕ)
      (f : ServerInformation R → ServerInformation R) (old : ServerInformation R)
      → get_elem? xs n ≡ some old
      → (f old).ip.uint ≡ ip
      → view_loop n xs ip ≡ none
      → view_loop (suc n) (modify n f xs) q ≡ (if q == ip then some (f old) else view_loop n xs q)
  unfolding modify
  view-extend zero [] ip q f old at e unseen = cc
  view-extend zero (x ∷ xs) ip q f old at e unseen =
      let same : x ≡ old = some-eq at in rw same (ground (arith, e))
  view-extend (suc n) [] ip q f old at e unseen = cc
  view-extend (suc n) (x ∷ xs) ip q f old at e unseen =
      ground (arith, view-extend n xs ip q f old at e)
