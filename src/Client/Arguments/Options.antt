-- ===== src/Client/Arguments/Options.antt =====
-- The options of a user, as `parseArguments` finds them.
use resilient_overlay_networ.Base.{ℕ, ◌+◌, ◌≤◌, ◌≡◌, List, [], ◌∷◌, some, ◌==◌, if◌then◌else◌}
use resilient_overlay_networ.Base.Texts.{codes}
use resilient_overlay_networ.Client.Args.{port, parse_ip, parse_port}
use resilient_overlay_networ.Client.Arguments.{
  Settings, Field, ip_field, port_field, map_field, user_field, pass_field, id_field, node_field,
  minus_one,
}

-- An option as the user gives it.
pub data Opt : Type 0 where
  given : Field → List ℕ → Opt
  new_map free_map : Opt

abbrev pub name : Field → List ℕ
name ip_field = codes "--ip"
name port_field = codes "--port"
name map_field = codes "--map"
name user_field = codes "--user"
name pass_field = codes "--pass"
name id_field = codes "--id"
name node_field = codes "--node"

abbrev pub written : List Opt → List (List ℕ)
written [] = []
written (given f v ∷ os) = name f ∷ v ∷ written os
written (new_map ∷ os) = codes "--new" ∷ written os
written (free_map ∷ os) = codes "--free" ∷ written os

-- The mark that an option takes: `--id`, `--new` and `--free` take the same.
abbrev pub slot : Opt → Field
slot (given f v) = f
slot new_map = id_field
slot free_map = id_field

abbrev pub number : Field → ℕ
number ip_field = 0
number port_field = 1
number map_field = 2
number user_field = 3
number pass_field = 4
number id_field = 5
number node_field = 6

-- How many of the options take a mark.
abbrev pub uses : Field → List Opt → ℕ
uses f [] = 0
uses f (o ∷ os) = (if number (slot o) == number f then 1 else 0) + uses f os

-- The value of an option is the one that the settings hold.
abbrev pub Agrees : Settings → Opt → Type 0
Agrees t (given ip_field v) = parse_ip v ≡ some t.ip
Agrees t (given port_field v) = parse_port v ≡ port t.port
Agrees t (given map_field v) = v ≡ t.map_name
Agrees t (given user_field v) = v ≡ t.user_name
Agrees t (given pass_field v) = v ≡ t.password
Agrees t (given id_field v) = (v ≡ t.creator_id) × (0 ≡ t.need_new_map)
Agrees t (given node_field v) = v ≡ t.node_name
Agrees t new_map = ([] ≡ t.creator_id) × (1 ≡ t.need_new_map)
Agrees t free_map = ([] ≡ t.creator_id) × (minus_one ≡ t.need_new_map)

-- Each of the mandatory marks is taken once, and that of the node at most once.
pub record Complete (os : List Opt) : Type 0 where
  pub ip_given : uses ip_field os ≡ 1
  pub port_given : uses port_field os ≡ 1
  pub map_given : uses map_field os ≡ 1
  pub user_given : uses user_field os ≡ 1
  pub pass_given : uses pass_field os ≡ 1
  pub creator_given : uses id_field os ≡ 1
  pub node_given : uses node_field os ≤ 1
