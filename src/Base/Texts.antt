-- ===== src/Base/Texts.antt =====
-- Texts as the lists of their bytes, and the C functions that read them up to a NUL.
use Prim.Native.Char.{code}
use Prim.Native.String.{String}
use Prim.Native.Nat.{ℕ}
use mathlib.Core.Bool.{Bool, true, false}
use mathlib.Core.Option.{Option, none, some}
use mathlib.Core.List.{List, [], ◌∷◌, ◌++◌}
use mathlib.Core.Path.{◌≡◌, refl}
use mathlib.Core.Logic.{◌≢◌}
use resilient_overlay_networ.Base.Tests.{◌==◌, if◌then◌else◌, eq→==, ne→==}

abbrev pub codes : String → List ℕ
codes String.[] = []
codes (String.◌∷◌ c s) = code c ∷ codes s

-- `strcmp (memory, text) == 0`; `none` is a read behind the memory.
unfoldable pub same_text : List ℕ → List ℕ → Option Bool
same_text text [] = none
same_text [] (b ∷ memory) = some (b == 0)
same_text (c ∷ text) (b ∷ memory) =
    let rest = same_text text memory in if c == b then rest else some false

-- The text that starts a piece of memory, up to its NUL.
unfoldable pub c_text : List ℕ → Option (List ℕ)
c_text [] = none
c_text (b ∷ memory) = elim (b == 0) [
  | true ↦ some []
  | false ↦ elim (c_text memory) [ none ↦ none | some text ↦ some (b ∷ text) ]
]

-- Two texts alike.
unfoldable pub text_eq : List ℕ → List ℕ → Bool
text_eq [] [] = true
text_eq [] (d ∷ ds) = false
text_eq (c ∷ cs) [] = false
text_eq (c ∷ cs) (d ∷ ds) = let rest = text_eq cs ds in if c == d then rest else false

pub same_text_self : (text rest : List ℕ) → same_text text (text ++ 0 ∷ rest) ≡ some true
unfolding same_text
same_text_self [] rest = refl
same_text_self (c ∷ text) rest = rw (eq→== c c refl) (same_text_self text rest)

-- No NUL inside.
abbrev pub IsText : List ℕ → Type 0
IsText [] = Unit {0}
IsText (c ∷ cs) = (c ≢ 0) × IsText cs

pub c_text_self : (text rest : List ℕ) → IsText text → c_text (text ++ 0 ∷ rest) ≡ some text
unfolding c_text
c_text_self [] rest h = refl
c_text_self (c ∷ text) rest (h, hs) = rw (c_text, ne→== c 0 h, c_text_self text rest hs) refl

pub text_eq_self : (text : List ℕ) → text_eq text text ≡ true
unfolding text_eq
text_eq_self [] = refl
text_eq_self (c ∷ cs) = rw (eq→== c c refl) (text_eq_self cs)
