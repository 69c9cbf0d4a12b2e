-- ===== src/Client/Arguments.antt =====
-- `parseArguments` of base/cf.cpp with the functions for its single arguments. `usage` ends the
-- program; what comes behind `--args` goes to the machine, which reads none of it.
pub mod Options
pub mod Progress
pub mod AnyOrder
mod Tests
use resilient_overlay_networ.Base.{
  ℕ, ◌^◌, List, [], ◌∷◌, Option, none, some, Bool, true, false, not, ◌&&◌, if◌then◌else◌,
}
use resilient_overlay_networ.Base.Texts.{codes, text_eq}
use resilient_overlay_networ.Client.Args.{Parsed, port, refused, undefined, parse_ip, parse_port}

-- The fields that the arguments of the program set. `needNewMap` is an int: the word of its 32 bits.
pub record Settings : Type 0 where
  pub ip : ℕ
  pub port : ℕ
  pub map_name : List ℕ
  pub node_name : List ℕ
  pub user_name : List ℕ
  pub password : List ℕ
  pub creator_id : List ℕ
  pub need_new_map : ℕ

-- Before the arguments are read the texts are empty. The numbers hold anything; the model takes 0.
abbrev pub blank : Settings
blank = record {
  ip = 0;
  port = 0;
  map_name = [];
  node_name = [];
  user_name = [];
  password = [];
  creator_id = [];
  need_new_map = 0;
}

-- `mark`
pub record Marks : Type 0 where
  pub ip : Bool
  pub port : Bool
  pub map : Bool
  pub user : Bool
  pub pass : Bool
  pub creator : Bool
  pub node : Bool
  pub args : Bool

abbrev pub no_marks : Marks
no_marks = record {
  ip = false;
  port = false;
  map = false;
  user = false;
  pass = false;
  creator = false;
  node = false;
  args = false;
}

-- An option with a value, one of `--new` and `--free` with what it makes of `needNewMap`, `--args`, or
-- another argument.
pub data Field : Type 0 where
  ip_field port_field map_field user_field pass_field id_field node_field : Field

pub data Flag : Type 0 where
  valued : Field → Flag
  bare : ℕ → Flag
  user_args unknown : Flag

abbrev pub minus_one : ℕ
minus_one = 0xffff_ffff

unfoldable pub flag_of : List ℕ → Flag
unfolding text_eq
flag_of arg =
    if text_eq arg (codes "--ip")
    then valued ip_field
    else if text_eq arg (codes "--port")
    then valued port_field
    else if text_eq arg (codes "--map")
    then valued map_field
    else if text_eq arg (codes "--user")
    then valued user_field
    else if text_eq arg (codes "--pass")
    then valued pass_field
    else if text_eq arg (codes "--id")
    then valued id_field
    else if text_eq arg (codes "--new")
    then bare 1
    else if text_eq arg (codes "--free")
    then bare minus_one
    else if text_eq arg (codes "--node")
    then valued node_field
    else if text_eq arg (codes "--args")
    then user_args
    else unknown

-- How the reading ends: with the fields, by `usage`, or by a null pointer behind the last argument or
-- an overflow in `parsePort`.
pub data Reading : Type 0 where
  settled : Settings → Reading
  usage : Reading
  fault : Reading

abbrev pub marked : Field → Marks → Bool
marked ip_field m = m.ip
marked port_field m = m.port
marked map_field m = m.map
marked user_field m = m.user
marked pass_field m = m.pass
marked id_field m = m.creator
marked node_field m = m.node

abbrev pub mark : Field → Marks → Marks
mark ip_field m = record m { ip = true }
mark port_field m = record m { port = true }
mark map_field m = record m { map = true }
mark user_field m = record m { user = true }
mark pass_field m = record m { pass = true }
mark id_field m = record m { creator = true }
mark node_field m = record m { node = true }

-- What an option makes of its value.
unfoldable pub store : Field → List ℕ → Settings → Reading
store ip_field value s = elim (parse_ip value) [
  | none ↦ usage
  | some v ↦ settled (record s { ip = v })
]
store port_field value s = elim (parse_port value) [
  | port v ↦ settled (record s { port = v })
  | refused ↦ usage
  | undefined ↦ fault
]
store map_field value s = settled (record s { map_name = value })
store user_field value s = settled (record s { user_name = value })
store pass_field value s = settled (record s { password = value })
store id_field value s = settled (record s { creator_id = value; need_new_map = 0 })
store node_field value s = settled (record s { node_name = value })

-- The loop over the first six marks.
unfoldable pub finish : Marks → Settings → Reading
finish m s =
    if m.ip && (m.port && (m.map && (m.user && (m.pass && m.creator)))) then settled s else usage

unfoldable pub argument_loop : List (List ℕ) → Marks → Settings → Reading
unfolding flag_of
argument_loop [] m s = finish m s
argument_loop (arg ∷ []) m s = elim (flag_of arg) [
  | valued field ↦ if marked field m then usage else fault
  | bare need ↦ elim m.creator [
    | true ↦ usage
    | false ↦ finish (record m { creator = true }) (record s { need_new_map = need })
  ]
  | user_args ↦ if m.args then usage else finish (record m { args = true }) s
  | unknown ↦ usage
]
argument_loop (arg ∷ value ∷ rest) m s = elim (flag_of arg) [
  | valued field ↦ elim (marked field m) [
    | true ↦ usage
    | false ↦ elim (store field value s) [
      | settled s' ↦ argument_loop rest (mark field m) s'
      | usage ↦ usage
      | fault ↦ fault
    ]
  ]
  | bare need ↦ elim m.creator [
    | true ↦ usage
    | false ↦
        argument_loop (value ∷ rest) (record m { creator = true })
          (record s { need_new_map = need })
  ]
  | user_args ↦ if m.args then usage else finish (record m { args = true }) s
  | unknown ↦ usage
]

-- The arguments behind the name of the program.
unfoldable pub parse_arguments : List (List ℕ) → Reading
parse_arguments argv = argument_loop argv no_marks blank
