-- ===== src/Base/Maps.antt =====
-- `std::map` with the operations that the program uses, as an association list in which a later
-- insertion stands in front.
use Prim.Native.Nat.{ℕ}
use mathlib.Core.Path.{◌≡◌, refl}
use mathlib.Core.Logic.{◌≢◌}
use mathlib.Core.Option.{Option, none, some}
use mathlib.Core.List.{List, [], ◌∷◌}
use resilient_overlay_networ.Base.Tests.{◌==◌, if◌then◌else◌, ne→==, eq→==}

module _ {ℓ} {V : Type ℓ} where
  abbrev pub find : ℕ → List (ℕ × V) → Option V
  find k [] = none
  find k ((j, v) ∷ m) = if j == k then some v else find k m

  abbrev pub insert : ℕ → V → List (ℕ × V) → List (ℕ × V)
  insert k v m = (k, v) ∷ m

  pub find-insert_self : (k : ℕ) (v : V) (m : List (ℕ × V)) → find k (insert k v m) ≡ some v
  find-insert_self k v m = rw (eq→== k k refl)

  pub find-insert_ne :
      (k j : ℕ) (v : V) (m : List (ℕ × V)) → k ≢ j → find j (insert k v m) ≡ find j m
  find-insert_ne k j v m h = rw (ne→== k j h)
