-- ===== src/Ports/Lookup.antt =====
-- Which ports are known, and that they stay so.
use resilient_overlay_networ.Base.{
  ℕ, ◌+◌, ◌%◌, ◌^◌, ◌≤◌, ◌<◌, ◌≡◌, ◌≢◌, refl, sym, ◌∙◌, none, arith, eq→==,
}
use resilient_overlay_networ.Base.Maps.{find, find-insert_ne}
use resilient_overlay_networ.Ports.{
  Ports, Owner, self, client, owner, take_for_nat, take_for_self, initial_ports, value_at, owner_of,
}

-- The two maps know the same ports, all between 8000 and `src_port`.
pub record IsSound (p : Ports) : Type 0 where
  pub from_8000 : 8000 ≤ p.src_port
  pub unused : (k : ℕ) → p.src_port ≤ k → find k p.port_to_ip ≡ none
  pub low : (k : ℕ) → k < 8000 → find k p.port_to_ip ≡ none

initial-IsSound : IsSound initial_ports
initial-IsSound = record { from_8000 = omega arith; unused = λ k h. refl; low = λ k h. refl }

-- One port is taken, for a client or for the node itself.
pub data Takes (p : Ports) : Ports → Type 0 where
  for_nat : (ip_src port_src : ℕ) → Takes p (take_for_nat p ip_src port_src)
  for_self : Takes p (take_for_self p)

pub data TakesAll (p : Ports) : Ports → Type 0 where
  here : TakesAll p p
  next : {q s : Ports} → TakesAll p q → Takes q s → TakesAll p s

-- While the ports last, a step keeps the table sound, and keeps the owner of every port below
-- `src_port`.
Takes-grows : {p q : Ports} → Takes p q → q.src_port ≡ p.src_port + 1
unfolding take_for_nat take_for_self
Takes-grows (for_nat ip port) = refl
Takes-grows for_self = refl

nat_find :
    (p : Ports) (ip_src port_src k : ℕ)
    → p.src_port < 2 ^ 16
    → k ≢ p.src_port
    → find k (take_for_nat p ip_src port_src).port_to_ip ≡ find k p.port_to_ip
unfolding take_for_nat
nat_find p ip_src port_src k h e =
    find-insert_ne (p.src_port % 2 ^ 16) k ip_src p.port_to_ip (λ x. absurd (omega arith))

nat_value :
    (p : Ports) (ip_src port_src k : ℕ)
    → p.src_port < 2 ^ 16
    → k ≢ p.src_port
    → find k (take_for_nat p ip_src port_src).my_port_to_src_port ≡ find k p.my_port_to_src_port
unfolding take_for_nat
nat_value p ip_src port_src k h e =
    find-insert_ne (p.src_port % 2 ^ 16) k port_src p.my_port_to_src_port
      (λ x. absurd (omega arith))

pub nat_port : (p : Ports) (ip port : ℕ) → (take_for_nat p ip port).src_port ≡ p.src_port + 1
unfolding take_for_nat
nat_port p ip port = refl

pub self_port : (p : Ports) → (take_for_self p).src_port ≡ p.src_port + 1
unfolding take_for_self
self_port p = refl

Takes-IsSound : {p q : Ports} → p.src_port < 2 ^ 16 → Takes p q → IsSound p → IsSound q
unfolding take_for_self
Takes-IsSound {p} h (for_nat ip port) s = record {
  from_8000 = omega (arith, nat_port p ip port, s.from_8000);
  unused = λ k lo.
      nat_find p ip port k h (omega (arith, nat_port p ip port))
      ∙ s.unused k (omega (arith, nat_port p ip port));
  low = λ k hi. nat_find p ip port k h (omega (arith, s.from_8000)) ∙ s.low k hi;
}
Takes-IsSound {p} h for_self s = record {
  from_8000 = omega arith;
  unused = λ k lo. s.unused k (omega arith);
  low = s.low;
}

-- The owner of a port in the range that `processFrame` looks at.
abbrev owned : Ports → ℕ → Owner
owned p k = owner_of (find k p.port_to_ip) (value_at k p.my_port_to_src_port)

owner-owned : (p : Ports) (k : ℕ) → 8000 ≤ k → k < p.src_port → owner p k ≡ owned p k
unfolding owner
owner-owned p k lo hi = ground arith

Takes-owner :
    {p q : Ports} (k : ℕ)
    → p.src_port < 2 ^ 16
    → Takes p q
    → 8000 ≤ k
    → k < p.src_port
    → owner q k ≡ owner p k
unfolding take_for_self
Takes-owner {p} k h (for_nat ip port) lo hi =
    owner-owned (take_for_nat p ip port) k lo (omega (arith, nat_port p ip port))
    ∙ rw (nat_find p ip port k h (omega arith), nat_value p ip port k h (omega arith))
        (sym (owner-owned p k lo hi))
Takes-owner {p} k h for_self lo hi =
    owner-owned (take_for_self p) k lo (omega arith) ∙ sym (owner-owned p k lo hi)

pub TakesAll-grows : {p q : Ports} → TakesAll p q → p.src_port ≤ q.src_port
TakesAll-grows here = omega arith
TakesAll-grows (next r t) = omega (arith, TakesAll-grows r, Takes-grows t)

pub TakesAll-then : {p q s : Ports} → TakesAll p q → TakesAll q s → TakesAll p s
TakesAll-then r here = r
TakesAll-then r (next r' t) = next (TakesAll-then r r') t

-- Until the ports run out, a taken port keeps its owner through everything that takes ports later.
pub TakesAll-owner :
    {p q : Ports} (k : ℕ)
    → q.src_port ≤ 2 ^ 16
    → TakesAll p q
    → 8000 ≤ k
    → k < p.src_port
    → owner q k ≡ owner p k
TakesAll-owner k h here lo hi = refl
TakesAll-owner k h (next r t) lo hi =
    let g = Takes-grows t in
    let g' = TakesAll-grows r in
    Takes-owner k (omega arith) t lo (omega arith) ∙ TakesAll-owner k (omega arith) r lo hi

TakesAll-IsSound : {p q : Ports} → q.src_port ≤ 2 ^ 16 → TakesAll p q → IsSound p → IsSound q
TakesAll-IsSound h here s = s
TakesAll-IsSound h (next r t) s =
    let g = Takes-grows t in Takes-IsSound (omega arith) t (TakesAll-IsSound (omega arith) r s)

nat_taken :
    (p : Ports) (ip port : ℕ)
    → 8000 ≤ p.src_port
    → p.src_port < 2 ^ 16
    → owner (take_for_nat p ip port) p.src_port ≡ client ip port
nat_taken p ip port lo h =
    let key : p.src_port % 2 ^ 16 ≡ p.src_port = omega arith in
    owner-owned (take_for_nat p ip port) p.src_port lo (omega (arith, nat_port p ip port))
    ∙ unfold take_for_nat in rw (key, eq→== p.src_port p.src_port refl)

self_taken : (p : Ports) → IsSound p → owner (take_for_self p) p.src_port ≡ self
unfolding take_for_self
self_taken p s =
    owner-owned (take_for_self p) p.src_port s.from_8000 (omega arith)
    ∙ rw (s.unused p.src_port (omega arith))

-- From the start on, as long as the ports have not run out: the port that was given to a translated
-- packet belongs to the packet's sender ever after.
pub owner-nat :
    {p s : Ports} (ip port : ℕ)
    → TakesAll initial_ports p
    → TakesAll (take_for_nat p ip port) s
    → s.src_port ≤ 2 ^ 16
    → owner s p.src_port ≡ client ip port
owner-nat {p} ip port before after h =
    let g = TakesAll-grows after in
    let g' = nat_port p ip port in
    let lo = TakesAll-grows before in
    TakesAll-owner p.src_port h after lo (omega arith) ∙ nat_taken p ip port lo (omega arith)

-- From the start on, as long as the ports have not run out: the port of a packet of the node's own
-- belongs to the node ever after.
pub owner-self :
    {p s : Ports}
    → TakesAll initial_ports p
    → TakesAll (take_for_self p) s
    → s.src_port ≤ 2 ^ 16
    → owner s p.src_port ≡ self
unfolding take_for_self
owner-self {p} before after h =
    let g = TakesAll-grows after in
    let sound = TakesAll-IsSound (omega arith) before initial-IsSound in
    TakesAll-owner p.src_port h after sound.from_8000 (omega arith) ∙ self_taken p sound
