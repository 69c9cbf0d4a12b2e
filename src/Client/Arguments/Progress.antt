-- ===== src/Client/Arguments/Progress.antt =====
-- What the loop of `parseArguments` has read, and what is to come.
use resilient_overlay_networ.Base.{
  ℕ, ◌+◌, ◌≤◌, ◌≡◌, refl, ap, sym, ◌∙◌, List, [], ◌∷◌, Bool, true, false, arith,
}
use resilient_overlay_networ.Client.Arguments.{
  Settings, Marks, ip_field, port_field, map_field, user_field, pass_field, id_field, node_field,
  minus_one, settled, marked, mark, finish,
}
use resilient_overlay_networ.Client.Arguments.Options.{
  Opt, given, new_map, free_map, slot, uses, Agrees,
}

abbrev pub one : Bool → ℕ
one true = 1
one false = 0

-- Each of the mandatory marks is taken once, by an option that was read or by one to come, and that of
-- the node at most once.
pub record Once (m : Marks) (os : List Opt) : Type 0 where
  pub ip_once : one m.ip + uses ip_field os ≡ 1
  pub port_once : one m.port + uses port_field os ≡ 1
  pub map_once : one m.map + uses map_field os ≡ 1
  pub user_once : one m.user + uses user_field os ≡ 1
  pub pass_once : one m.pass + uses pass_field os ≡ 1
  pub id_once : one m.creator + uses id_field os ≡ 1
  pub node_once : one m.node + uses node_field os ≤ 1

-- The fields whose marks are taken hold the settings' values, and the texts of the others are empty.
abbrev pub SoFar : {A : Type 0} → Bool → A → A → A → Type 0
SoFar true value target start = value ≡ target
SoFar false value target start = value ≡ start

pub record Holds (t : Settings) (m : Marks) (s : Settings) : Type 0 where
  pub ip_holds : SoFar m.ip s.ip t.ip 0
  pub port_holds : SoFar m.port s.port t.port 0
  pub map_holds : SoFar m.map s.map_name t.map_name []
  pub user_holds : SoFar m.user s.user_name t.user_name []
  pub pass_holds : SoFar m.pass s.password t.password []
  pub creator_holds : SoFar m.creator s.creator_id t.creator_id []
  pub need_holds : SoFar m.creator s.need_new_map t.need_new_map 0
  pub node_holds : SoFar m.node s.node_name t.node_name []

pub one-zero : (b : Bool) → one b ≡ 0 → b ≡ false
one-zero true e = absurd (omega arith)
one-zero false e = refl

pub one-one : (b : Bool) → one b ≡ 1 → b ≡ true
one-one true e = refl
one-one false e = absurd (omega arith)

-- An option that is read finds its mark free, and takes it.
pub Once-mark :
    (o : Opt) (os : List Opt) (m : Marks)
    → Once m (o ∷ os)
    → (marked (slot o) m ≡ false) × Once (mark (slot o) m) os
Once-mark (given ip_field v) os m h = (one-zero m.ip (omega arith), omega arith)
Once-mark (given port_field v) os m h = (one-zero m.port (omega arith), omega arith)
Once-mark (given map_field v) os m h = (one-zero m.map (omega arith), omega arith)
Once-mark (given user_field v) os m h = (one-zero m.user (omega arith), omega arith)
Once-mark (given pass_field v) os m h = (one-zero m.pass (omega arith), omega arith)
Once-mark (given id_field v) os m h = (one-zero m.creator (omega arith), omega arith)
Once-mark (given node_field v) os m h = (one-zero m.node (omega arith), omega arith)
Once-mark new_map os m h = (one-zero m.creator (omega arith), omega arith)
Once-mark free_map os m h = (one-zero m.creator (omega arith), omega arith)

-- The node's name is empty, or an option gives it.
abbrev pub Named : Settings → Marks → List Opt → Type 0
Named t m os = one m.node + uses node_field os ≡ 0 → t.node_name ≡ []

pub Named-mark :
    (t : Settings) (o : Opt) (os : List Opt) (m : Marks)
    → Named t m (o ∷ os)
    → Named t (mark (slot o) m) os
Named-mark t (given ip_field v) os m h z = h (omega arith)
Named-mark t (given port_field v) os m h z = h (omega arith)
Named-mark t (given map_field v) os m h z = h (omega arith)
Named-mark t (given user_field v) os m h z = h (omega arith)
Named-mark t (given pass_field v) os m h z = h (omega arith)
Named-mark t (given id_field v) os m h z = h (omega arith)
Named-mark t (given node_field v) os m h z = absurd (omega arith)
Named-mark t new_map os m h z = h (omega arith)
Named-mark t free_map os m h z = h (omega arith)

-- The fields of the settings that an option sets.
abbrev pub put : Settings → Opt → Settings → Settings
put t (given ip_field v) s = record s { ip = t.ip }
put t (given port_field v) s = record s { port = t.port }
put t (given map_field v) s = record s { map_name = v }
put t (given user_field v) s = record s { user_name = v }
put t (given pass_field v) s = record s { password = v }
put t (given id_field v) s = record s { creator_id = v; need_new_map = 0 }
put t (given node_field v) s = record s { node_name = v }
put t new_map s = record s { need_new_map = 1 }
put t free_map s = record s { need_new_map = minus_one }

-- All eight at once.
all_hold :
    {t : Settings} {m : Marks} {s : Settings}
    → SoFar m.ip s.ip t.ip 0
    → SoFar m.port s.port t.port 0
    → SoFar m.map s.map_name t.map_name []
    → SoFar m.user s.user_name t.user_name []
    → SoFar m.pass s.password t.password []
    → SoFar m.creator s.creator_id t.creator_id []
    → SoFar m.creator s.need_new_map t.need_new_map 0
    → SoFar m.node s.node_name t.node_name []
    → Holds t m s
all_hold a b c d e f g h = record {
  ip_holds = a;
  port_holds = b;
  map_holds = c;
  user_holds = d;
  pass_holds = e;
  creator_holds = f;
  need_holds = g;
  node_holds = h;
}

pub Holds-put :
    (t : Settings) (o : Opt) (m : Marks) (s : Settings)
    → Agrees t o
    → marked (slot o) m ≡ false
    → Holds t m s
    → Holds t (mark (slot o) m) (put t o s)
Holds-put t (given ip_field v) m s a free i =
    all_hold refl i.port_holds i.map_holds i.user_holds i.pass_holds i.creator_holds i.need_holds
      i.node_holds
Holds-put t (given port_field v) m s a free i =
    all_hold i.ip_holds refl i.map_holds i.user_holds i.pass_holds i.creator_holds i.need_holds
      i.node_holds
Holds-put t (given map_field v) m s a free i =
    all_hold i.ip_holds i.port_holds a i.user_holds i.pass_holds i.creator_holds i.need_holds
      i.node_holds
Holds-put t (given user_field v) m s a free i =
    all_hold i.ip_holds i.port_holds i.map_holds a i.pass_holds i.creator_holds i.need_holds
      i.node_holds
Holds-put t (given pass_field v) m s a free i =
    all_hold i.ip_holds i.port_holds i.map_holds i.user_holds a i.creator_holds i.need_holds
      i.node_holds
Holds-put t (given id_field v) m s a free i =
    all_hold i.ip_holds i.port_holds i.map_holds i.user_holds i.pass_holds a.0 a.1 i.node_holds
Holds-put t (given node_field v) m s a free i =
    all_hold i.ip_holds i.port_holds i.map_holds i.user_holds i.pass_holds i.creator_holds
      i.need_holds a
Holds-put t new_map m s a free i =
    all_hold i.ip_holds i.port_holds i.map_holds i.user_holds i.pass_holds
      (rw free at i.creator_holds ∙ a.0) a.1 i.node_holds
Holds-put t free_map m s a free i =
    all_hold i.ip_holds i.port_holds i.map_holds i.user_holds i.pass_holds
      (rw free at i.creator_holds ∙ a.0) a.1 i.node_holds

-- Settings with the same fields.
pub same :
    {s t : Settings}
    → s.ip ≡ t.ip
    → s.port ≡ t.port
    → s.map_name ≡ t.map_name
    → s.node_name ≡ t.node_name
    → s.user_name ≡ t.user_name
    → s.password ≡ t.password
    → s.creator_id ≡ t.creator_id
    → s.need_new_map ≡ t.need_new_map
    → s ≡ t
same a b c d e f g h = λ i. record {
  ip = a i;
  port = b i;
  map_name = c i;
  node_name = d i;
  user_name = e i;
  password = f i;
  creator_id = g i;
  need_new_map = h i;
}

pub all-true : (b : Bool) → one b + 0 ≡ 1 → b ≡ true
all-true b e = one-one b (omega arith)

pub SoFar-true :
    {A : Type 0} (b : Bool) (value target start : A)
    → b ≡ true
    → SoFar b value target start
    → value ≡ target
SoFar-true true value target start e h = h
SoFar-true false value target start e h = cc

pub node-holds :
    (b : Bool) (value target : List ℕ)
    → (one b + 0 ≡ 0 → target ≡ [])
    → SoFar b value target []
    → value ≡ target
node-holds true value target h e = e
node-holds false value target h e = e ∙ sym (h refl)

-- With all options read, the fields are those of the settings.
pub settle :
    (t s : Settings) (m : Marks) → Once m [] → Named t m [] → Holds t m s → finish m s ≡ settled t
unfolding finish
settle t s m h node i =
    let ip = all-true m.ip h.ip_once in
    let port = all-true m.port h.port_once in
    let map = all-true m.map h.map_once in
    let user = all-true m.user h.user_once in
    let pass = all-true m.pass h.pass_once in
    let creator = all-true m.creator h.id_once in
    rw (ip, port, map, user, pass, creator)
      (ap settled (
        same (SoFar-true m.ip s.ip t.ip 0 ip i.ip_holds)
          (SoFar-true m.port s.port t.port 0 port i.port_holds)
          (SoFar-true m.map s.map_name t.map_name [] map i.map_holds)
          (node-holds m.node s.node_name t.node_name node i.node_holds)
          (SoFar-true m.user s.user_name t.user_name [] user i.user_holds)
          (SoFar-true m.pass s.password t.password [] pass i.pass_holds)
          (SoFar-true m.creator s.creator_id t.creator_id [] creator i.creator_holds)
          (SoFar-true m.creator s.need_new_map t.need_new_map 0 creator i.need_holds)))
