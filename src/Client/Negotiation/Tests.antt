-- ===== src/Client/Negotiation/Tests.antt =====
-- The negotiations of a user with a server that accepts, over a slow socket.
use resilient_overlay_networ.Base.{
  ℕ, ◌+◌, ◌≡◌, refl, List, [], ◌∷◌, ◌++◌, true, false, length, All, arith,
}
use resilient_overlay_networ.Base.Texts.{codes}
use resilient_overlay_networ.Wire.Network.{be32}
use resilient_overlay_networ.Client.Arguments.{Settings}
use resilient_overlay_networ.Client.Session.{Session, done, fault}
use resilient_overlay_networ.Client.Slow.{
  Line, slow, slow-Delivers, slow-Separate, zeros, length-zeros,
}
use resilient_overlay_networ.Client.Negotiation.{
  own_map, do_map_selecting_negotiations, do_initial_negotiations,
}
use resilient_overlay_networ.Client.Negotiation.Reading.{Leaves}
use resilient_overlay_networ.Client.Negotiation.Map.{do_map_selecting_negotiations_overrun}
use resilient_overlay_networ.Client.Negotiation.Information.{Described, Fits}
use resilient_overlay_networ.Client.Negotiation.Synchronized.{
  machine, interfaces, interfaces_answer, custom_answer,
}
use resilient_overlay_networ.Client.Negotiation.Whole.{
  Short, selection, accepted, do_initial_negotiations-accepted,
}

abbrev settings : Settings
settings = record {
  ip = 0x7f00_0001;
  port = 7891;
  map_name = codes "overlay";
  node_name = codes "node1";
  user_name = codes "ali";
  password = codes "1234";
  creator_id = [];
  need_new_map = 1;
}

settings-Short : Short settings
unfolding own_map
settings-Short = record {
  user_le = omega arith;
  password_le = omega arith;
  map_le = omega arith;
  node_some = omega arith;
  node_le = omega arith;
}

-- The client with these bytes to read.
abbrev client : List ℕ → Session Line
client bytes = record { sfd = (bytes, []); buffer = zeros 1524 }

-- A map name of 1514 bytes, and no creator.
abbrev long_map : Settings
long_map = record settings { map_name = zeros 1514; need_new_map = 0 }

long_map-length : length (zeros 1514) + length (own_map long_map).creator_id ≡ 1514
unfolding own_map
long_map-length = omega (arith, length-zeros 1514)

do_map_selecting_negotiations_overrun_example :
    do_map_selecting_negotiations slow 1524 long_map (client []) ≡ fault
do_map_selecting_negotiations_overrun_example =
    do_map_selecting_negotiations_overrun slow slow-Delivers slow-Separate 1524 long_map (client [])
      (length-zeros 1524) (omega (arith, long_map-length)) (omega (arith, long_map-length))

-- Two interfaces, one of each type.
abbrev two_interfaces : List Described
two_interfaces =
    (record {
      is_physical = false;
      unread = [];
      mac = record { b0 = 0; b1 = 1; b2 = 2; b3 = 3; b4 = 4; b5 = 5 };
      b6 = 0;
      b7 = 0;
      ip = 0xc0a8_0001;
      mask = 0xffff_ff00;
    })
    ∷ (record {
      is_physical = true;
      unread = 1 ∷ [];
      mac = record { b0 = 0; b1 = 1; b2 = 2; b3 = 3; b4 = 4; b5 = 6 };
      b6 = 0;
      b7 = 0;
      ip = 0xc0a8_0101;
      mask = 0xffff_ff00;
    })
    ∷ []

two_interfaces-Fits : All Fits two_interfaces
two_interfaces-Fits = (
  record { in_buffer = omega arith; ip_lt = omega arith; mask_lt = omega arith },
  (record { in_buffer = omega arith; ip_lt = omega arith; mask_lt = omega arith }, tt),
)

abbrev whole : List ℕ
whole = accepted (interfaces_answer two_interfaces ++ (custom_answer (codes "x") ++ []))

do_initial_negotiations-accepted_example :
    (s' : Session Line) × (do_initial_negotiations slow 1524 settings (client whole)
      ≡ done (own_map settings, machine (codes "x") (interfaces 0 two_interfaces), s'))
    × Leaves slow (client whole) s' (selection settings ++ (be32 0 ++ be32 1)) []
do_initial_negotiations-accepted_example =
    do_initial_negotiations-accepted slow slow-Delivers slow-Separate 1524 settings two_interfaces
      (codes "x") [] (client whole) (omega arith) settings-Short (omega arith) (omega arith)
      two_interfaces-Fits (λ z. absurd (omega arith), tt) (omega arith) (length-zeros 1524) refl
