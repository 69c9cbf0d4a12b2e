-- ===== src/Node/Console/Read.antt =====
-- The routing state can be read off what `dtable` prints.
use resilient_overlay_networ.Base.{
  ℕ, zero, suc, ◌^◌, ◌≤◌, ◌<◌, ◌≡◌, refl, ap, ◌∙◌, List, [], ◌∷◌, ◌++◌, Option, none, some, All,
  Bool, ◌==◌, if◌then◌else◌, arith, ne→==, inl, inr, Bool-cases, ==→eq, map, take, length,
}
use resilient_overlay_networ.Base.Texts.{codes}
use resilient_overlay_networ.Base.Shown.{shown}
use resilient_overlay_networ.Servers.{ServerInformation, Table, max_rtt}
use resilient_overlay_networ.Node.Console.{column, endl, delay_line, print_loop, print_delay_table}
use resilient_overlay_networ.Node.Console.Rows.{
  rows, IsWord, IsDigits, rows-column, rows-endl, column-append, value, value-shown, shown-IsDigits,
  IsDigits-IsWord,
}

-- The time in the last column: INF, or a number.
unfoldable pub read_time : List ℕ → ℕ
unfolding value
read_time [] = 0
read_time (c ∷ cs) = if c == b'I' then max_rtt else value 0 (c ∷ cs)

read_time-digits : (w : List ℕ) → IsDigits w → read_time w ≡ value 0 w
unfolding read_time value
read_time-digits [] t = refl
read_time-digits (c ∷ cs) ((lo, hi), t) = rw (ne→== c b'I' (λ e. absurd (omega arith))) refl

-- The server's address, the next hop in use, the one learnt, and the time learnt.
abbrev pub Route : Type 0
Route = List ℕ × List ℕ × List ℕ × ℕ

unfoldable pub read_route : List (List ℕ) → Option Route
unfolding read_time
read_route (ip ∷ forward ∷ learnt ∷ time ∷ []) = some (ip, forward, learnt, read_time time)
read_route row = none

-- Three columns and a last word.
row :
    (a b c w rest : List ℕ)
    → IsWord a
    → IsWord b
    → IsWord c
    → IsWord w
    → rows (column a (column b (column c (endl w))) ++ rest) ≡ (a ∷ b ∷ c ∷ w ∷ []) ∷ rows rest
row a b c w rest ta tb tc tw =
    rw
      (
        column-append a (column b (column c (endl w))) rest,
        column-append b (column c (endl w)) rest,
        column-append c (endl w) rest,
      )
      (rows-column a (column b (column c (endl w ++ rest))) (b ∷ c ∷ w ∷ []) (rows rest) ta (
        rows-column b (column c (endl w ++ rest)) (c ∷ w ∷ []) (rows rest) tb
          (rows-column c (endl w ++ rest) (w ∷ []) (rows rest) tc (rows-endl w rest tw))))

inf-IsWord : IsWord (codes "INF")
inf-IsWord = (
  (λ e. absurd (omega arith), λ e. absurd (omega arith)),
  (
    (λ e. absurd (omega arith), λ e. absurd (omega arith)),
    ((λ e. absurd (omega arith), λ e. absurd (omega arith)), tt),
  ),
)

module _ {R : Type 0} where
  abbrev pub route : ServerInformation R → Option Route
  route s = some (
    s.ip.str, s.forwarding_table.ip_next_hop_rtt.str, s.learning_table.ip_next_hop_rtt.str,
    s.learning_table.rtt_time,
  )

  -- The texts of an entry are words, and its time is a uint16_t.
  abbrev pub IsPlain : ServerInformation R → Type 0
  IsPlain s =
      IsWord s.ip.str
      × IsWord s.forwarding_table.ip_next_hop_rtt.str
      × IsWord s.learning_table.ip_next_hop_rtt.str
      × (s.learning_table.rtt_time < 2 ^ 16)

  -- One line, read back.
  delay_line-read :
      (s : ServerInformation R) (fixed : Bool) (rest : List ℕ)
      → IsPlain s
      → map read_route (rows ((delay_line fixed s).0 ++ rest))
        ≡ route s ∷ map read_route (rows rest)
  unfolding delay_line read_route
  delay_line-read s fixed rest (ta, tb, tc, small) =
      let a = s.ip.str in
      let b = s.forwarding_table.ip_next_hop_rtt.str in
      let c = s.learning_table.ip_next_hop_rtt.str in
      let time = s.learning_table.rtt_time in
      elim (Bool-cases (time == max_rtt)) [
        | inl e ↦
            rw (e, row a b c (codes "INF") rest ta tb tc inf-IsWord, ==→eq time max_rtt e) refl
        | inr e ↦
            rw
              (
                e,
                row a b c (shown time) rest ta tb tc
                    (IsDigits-IsWord (shown time) (shown-IsDigits time)),
                read_time-digits (shown time) (shown-IsDigits time),
                value-shown time (omega arith),
              )
              refl
      ]

  print_loop-read :
      (n : ℕ) (xs : List (ServerInformation R)) (fixed : Bool)
      → n ≤ length xs
      → All IsPlain (take n xs)
      → (text : List ℕ) × (fixed' : Bool) × (print_loop delay_line n xs fixed ≡ some (text, fixed'))
        × (map read_route (rows text) ≡ map route (take n xs))
  unfolding print_loop rows
  print_loop-read zero xs fixed h t = ([], fixed, refl, refl)
  print_loop-read (suc n) [] fixed h t = absurd (omega arith)
  print_loop-read (suc n) (x ∷ xs) fixed h (plain, t) =
      let (text, fixed', printed, read) =
        print_loop-read n xs (delay_line fixed x).1 (omega arith) t in
      (
        (delay_line fixed x).0 ++ text,
        fixed',
        rw printed refl,
        delay_line-read x fixed text plain ∙ ap (◌∷◌ (route x)) read,
      )

  -- With all the counted entries in the array, their texts without blanks and line feeds and their
  -- times uint16_t numbers, `dtable` prints a table whose rows of words give back, entry by entry and in
  -- order, the address, the next hop in use, the next hop learnt, and the time learnt, where INF stands
  -- for a server that does not answer.
  pub print_delay_table-read :
      (t : Table R) (fixed : Bool)
      → t.number_of_all_servers ≤ length t.server_infoes
      → All IsPlain (take t.number_of_all_servers t.server_infoes)
      → (text : List ℕ) × (fixed' : Bool) × (print_delay_table t fixed ≡ some (text, fixed'))
        × (map read_route (rows text) ≡ map route (take t.number_of_all_servers t.server_infoes))
  unfolding print_delay_table
  print_delay_table-read t fixed h plain =
      print_loop-read t.number_of_all_servers t.server_infoes fixed h plain
