-- ===== src/Servers/Learn.antt =====
-- What a run of reports about one server leaves in its entry.
use resilient_overlay_networ.Base.{
  ℕ, ◌≤◌, ◌≡◌, ◌≢◌, refl, ◌∙◌, ◌⊎◌, inl, inr, List, [], ◌∷◌, some, arith,
}
use resilient_overlay_networ.Base.Maps.{find}
use resilient_overlay_networ.Servers.{IpInfo, ServerInformation, Rates, learn}

-- A report: the node that sent it, with its round trip time and loss rate to the server.
pub record Report (R : Type 0) : Type 0 where
  pub hop : IpInfo
  pub rtt : ℕ
  pub rate : R

module _ {R : Type 0} (r : Rates R) where
  unfoldable pub learn_all : List (Report R) → ServerInformation R → ServerInformation R
  learn_all [] s = s
  learn_all (p ∷ ps) s = learn_all ps (learn r p.hop p.rtt p.rate s)

  -- The round trip times last reported, by the address of the sender.
  abbrev pub rtts : List (Report R) → List (ℕ × ℕ) → List (ℕ × ℕ)
  rtts [] m = m
  rtts (p ∷ ps) m = rtts ps ((p.hop.uint, p.rtt) ∷ m)

  abbrev pub rates : List (Report R) → List (ℕ × R) → List (ℕ × R)
  rates [] m = m
  rates (p ∷ ps) m = rates ps ((p.hop.uint, p.rate) ∷ m)

  learn-latest :
      (p : Report R) (s : ServerInformation R) (m : List (ℕ × ℕ))
      → find s.learning_table.ip_next_hop_rtt.uint m ≡ some s.learning_table.rtt_time
      → let l = (learn r p.hop p.rtt p.rate s).learning_table in
        find l.ip_next_hop_rtt.uint ((p.hop.uint, p.rtt) ∷ m) ≡ some l.rtt_time
  unfolding learn
  learn-latest p s m h = ground arith

  learn-latest_rate :
      (p : Report R) (s : ServerInformation R) (m : List (ℕ × R))
      → find s.learning_table.ip_next_hop_lost.uint m ≡ some s.learning_table.lost_rate
      → let l = (learn r p.hop p.rtt p.rate s).learning_table in
        find l.ip_next_hop_lost.uint ((p.hop.uint, p.rate) ∷ m) ≡ some l.lost_rate
  unfolding learn
  learn-latest_rate p s m h = ground arith

  -- Whatever reports come in, in any order: the round trip time in the learning table is the one that
  -- its next hop reported last, and so is the loss rate, if that held at the start.
  pub learn_all-latest :
      (ps : List (Report R)) (s : ServerInformation R) (m : List (ℕ × ℕ)) (k : List (ℕ × R))
      → find s.learning_table.ip_next_hop_rtt.uint m ≡ some s.learning_table.rtt_time
      → find s.learning_table.ip_next_hop_lost.uint k ≡ some s.learning_table.lost_rate
      → let l = (learn_all ps s).learning_table in
        (find l.ip_next_hop_rtt.uint (rtts ps m) ≡ some l.rtt_time)
        × (find l.ip_next_hop_lost.uint (rates ps k) ≡ some l.lost_rate)
  unfolding learn_all
  learn_all-latest [] s m k h g = (h, g)
  learn_all-latest (p ∷ ps) s m k h g =
      learn_all-latest ps (learn r p.hop p.rtt p.rate s) _ _ (learn-latest p s m h)
        (learn-latest_rate p s k g)

  abbrev NotIn : ℕ → List ℕ → Type 0
  NotIn a [] = Unit {0}
  NotIn a (b ∷ bs) = (a ≢ b) × NotIn a bs

  -- No node reports twice, and none of those in `used` reports.
  abbrev pub Apart : List (Report R) → List ℕ → Type 0
  Apart [] used = Unit {0}
  Apart (p ∷ ps) used = NotIn p.hop.uint used × Apart ps (p.hop.uint ∷ used)

  abbrev IsIn : ℕ → List ℕ → Type 0
  IsIn a [] = ⊥
  IsIn a (b ∷ bs) = (a ≡ b) ⊎ IsIn a bs

  ne_of_in : (a b : ℕ) (bs : List ℕ) → NotIn a bs → IsIn b bs → a ≢ b
  ne_of_in a b [] n i = absurd i
  ne_of_in a b (c ∷ bs) (n, ns) (inl e) = λ h. n (h ∙ e)
  ne_of_in a b (c ∷ bs) (n, ns) (inr i) = ne_of_in a b bs ns i

  learn-shortest :
      (p : Report R) (s : ServerInformation R) (used : List ℕ)
      → p.hop.uint ≢ s.learning_table.ip_next_hop_rtt.uint
      → IsIn s.learning_table.ip_next_hop_rtt.uint used
      → let l = (learn r p.hop p.rtt p.rate s).learning_table in
        (l.rtt_time ≤ p.rtt)
        × (l.rtt_time ≤ s.learning_table.rtt_time)
        × IsIn l.ip_next_hop_rtt.uint (p.hop.uint ∷ used)
  unfolding learn
  learn-shortest p s used h i = ground arith

  abbrev pub NoneShorter : ℕ → List (Report R) → Type 0
  NoneShorter a [] = Unit {0}
  NoneShorter a (p ∷ ps) = (a ≤ p.rtt) × NoneShorter a ps

  learn_all-shortest_in :
      (ps : List (Report R)) (s : ServerInformation R) (used : List ℕ)
      → Apart ps used
      → IsIn s.learning_table.ip_next_hop_rtt.uint used
      → let a = (learn_all ps s).learning_table.rtt_time in
        NoneShorter a ps × (a ≤ s.learning_table.rtt_time)
  unfolding learn_all
  learn_all-shortest_in [] s used h i = (tt, omega arith)
  learn_all-shortest_in (p ∷ ps) s used (n, h) i =
      let (new, old, i') = learn-shortest p s used (ne_of_in _ _ used n i) i in
      let (ns, le) =
        learn_all-shortest_in ps (learn r p.hop p.rtt p.rate s) (p.hop.uint ∷ used) h i' in
      ((omega arith, ns), omega arith)

  -- When every node reports once, and none of them is the next hop at the start, the round trip time
  -- in the learning table ends up no longer than any that was reported, nor than that at the start.
  pub learn_all-shortest :
      (ps : List (Report R)) (s : ServerInformation R)
      → Apart ps (s.learning_table.ip_next_hop_rtt.uint ∷ [])
      → let a = (learn_all ps s).learning_table.rtt_time in
        NoneShorter a ps × (a ≤ s.learning_table.rtt_time)
  learn_all-shortest ps s h = learn_all-shortest_in ps s _ h (inl refl)
