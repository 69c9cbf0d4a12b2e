-- ===== src/Node/Console/Rows.antt =====
-- A printed table as its rows of words: lines end in a line feed, words are parted by a blank.
use mathlib.Core.List.{append-nil, append_assoc}
use resilient_overlay_networ.Base.{
  ℕ, zero, suc, ◌+◌, ◌-◌, ◌*◌, ◌/◌, ◌%◌, ◌^◌, ◌≤◌, ◌<◌, ◌≡◌, ◌≢◌, refl, ap, ◌∙◌, List, [], ◌∷◌,
  ◌++◌, All, ◌==◌, if◌then◌else◌, arith, ne→==, inl, inr, Bool-cases, ==→eq,
}
use resilient_overlay_networ.Base.Shown.{shown, shown_loop}
use resilient_overlay_networ.Node.Console.{column, endl}

-- A byte in front of the first word of the first row.
abbrev pub in_first_word : ℕ → List (List ℕ) → List (List ℕ)
in_first_word c [] = (c ∷ []) ∷ []
in_first_word c (w ∷ ws) = (c ∷ w) ∷ ws

abbrev pub in_first_row :
    (List (List ℕ) → List (List ℕ)) → List (List (List ℕ)) → List (List (List ℕ))
in_first_row f [] = f [] ∷ []
in_first_row f (r ∷ rs) = f r ∷ rs

unfoldable pub rows : List ℕ → List (List (List ℕ))
rows [] = []
rows (c ∷ cs) =
    let later = rows cs in
    if c == 10
    then ([] ∷ []) ∷ later
    else if c == b' '
    then in_first_row (λ r. [] ∷ r) later
    else in_first_row (in_first_word c) later

-- A text with no blank and no line feed in it.
abbrev pub IsWord : List ℕ → Type 0
IsWord w = All (λ c. (c ≢ 10) × (c ≢ b' ')) w

rows-word :
    (w rest h : List ℕ) (ws : List (List ℕ)) (rs : List (List (List ℕ)))
    → IsWord w
    → rows rest ≡ (h ∷ ws) ∷ rs
    → rows (w ++ rest) ≡ ((w ++ h) ∷ ws) ∷ rs
unfolding rows
rows-word [] rest h ws rs t e = e
rows-word (c ∷ w) rest h ws rs ((n, b), t) e =
    rw (ne→== c 10 n, ne→== c (b' ') b, rows-word w rest h ws rs t e) refl

pub rows-column :
    (w rest : List ℕ) (ws : List (List ℕ)) (rs : List (List (List ℕ)))
    → IsWord w
    → rows rest ≡ ws ∷ rs
    → rows (column w rest) ≡ (w ∷ ws) ∷ rs
unfolding rows
rows-column w rest ws rs t e =
    rows-word w (b' ' ∷ rest) [] ws rs t (rw e refl) ∙ rw (append-nil w) refl

pub rows-endl : (w rest : List ℕ) → IsWord w → rows (endl w ++ rest) ≡ (w ∷ []) ∷ rows rest
unfolding rows
rows-endl w rest t =
    rw (append_assoc w (10 ∷ []) rest)
      (rows-word w (10 ∷ rest) [] [] (rows rest) t refl ∙ rw (append-nil w) refl)

pub column-append : (w a b : List ℕ) → column w a ++ b ≡ column w (a ++ b)
column-append w a b = append_assoc w (b' ' ∷ a) b

-- A number of digits.
unfoldable pub value : ℕ → List ℕ → ℕ
value n [] = n
value n (c ∷ cs) = value (n * 10 + (c - b'0')) cs

value-shown_loop :
    (fuel n : ℕ) (text : List ℕ) → n < 10 ^ fuel → value 0 (shown_loop fuel n text) ≡ value n text
unfolding value shown_loop
value-shown_loop zero n text h = ap (λ k. value k text) (omega arith)
value-shown_loop (suc fuel) n text h = elim (Bool-cases (n / 10 == 0)) [
  | inl e ↦ let small = ==→eq (n / 10) 0 e in rw e (ap (λ k. value k text) (omega arith))
  | inr e ↦ rw e (
      value-shown_loop fuel (n / 10) ((b'0' + n % 10) ∷ text) (omega arith)
      ∙ ap (λ k. value k text) (omega arith))
]

-- Twenty digits are enough for a uint64_t.
pub value-shown : (n : ℕ) → n < 2 ^ 64 → value 0 (shown n) ≡ n
unfolding shown value
value-shown n h = value-shown_loop 20 n [] (omega arith)

-- Digits alone.
abbrev pub IsDigits : List ℕ → Type 0
IsDigits text = All (λ c. (b'0' ≤ c) × (c ≤ b'9')) text

shown_loop-IsDigits :
    (fuel n : ℕ) (text : List ℕ) → IsDigits text → IsDigits (shown_loop fuel n text)
unfolding shown_loop
shown_loop-IsDigits zero n text h = h
shown_loop-IsDigits (suc fuel) n text h =
    let text' : List ℕ = (b'0' + n % 10) ∷ text in
    let h' : IsDigits text' = ((omega arith, omega arith), h) in
    elim (Bool-cases (n / 10 == 0)) [
      | inl e ↦ rw e h'
      | inr e ↦ rw e (shown_loop-IsDigits fuel (n / 10) text' h')
    ]

pub shown-IsDigits : (n : ℕ) → IsDigits (shown n)
unfolding shown
shown-IsDigits n = shown_loop-IsDigits 20 n [] tt

pub IsDigits-IsWord : (w : List ℕ) → IsDigits w → IsWord w
IsDigits-IsWord [] t = tt
IsDigits-IsWord (c ∷ w) ((lo, hi), t) =
    ((λ e. absurd (omega arith), λ e. absurd (omega arith)), IsDigits-IsWord w t)
