-- ===== src/Client/Arguments/Tests.antt =====
-- Arguments as a user gives them.
use resilient_overlay_networ.Base.{◌≡◌, refl, List, [], ◌∷◌, some, arith}
use resilient_overlay_networ.Base.Texts.{codes}
use resilient_overlay_networ.Client.Args.{
  port, parse_ip, parse_port, split_dot, parse_parts, parse_part, part_value, port_loop,
}
use resilient_overlay_networ.Client.Arguments.{
  Settings, ip_field, port_field, map_field, user_field, pass_field, node_field, settled,
  parse_arguments,
}
use resilient_overlay_networ.Client.Arguments.Options.{Opt, given, new_map, written, Complete}
use resilient_overlay_networ.Client.Arguments.AnyOrder.{parse_arguments-written}

abbrev settings : Settings
settings = record {
  ip = 0x7f00_0001;
  port = 7891;
  map_name = codes "overlay";
  node_name = codes "node1";
  user_name = codes "ali";
  password = codes "1234";
  creator_id = [];
  need_new_map = 1;
}

abbrev options : List Opt
options =
    given node_field (codes "node1")
    ∷ given pass_field (codes "1234")
    ∷ new_map
    ∷ given port_field (codes "7891")
    ∷ given ip_field (codes "127.0.0.1")
    ∷ given map_field (codes "overlay")
    ∷ given user_field (codes "ali")
    ∷ []

ip_text : parse_ip (codes "127.0.0.1") ≡ some 0x7f00_0001
unfolding parse_ip split_dot parse_parts parse_part part_value
ip_text = refl

port_text : parse_port (codes "7891") ≡ port 7891
unfolding parse_port port_loop
port_text = refl

options-Complete : Complete options
options-Complete = record {
  ip_given = refl;
  port_given = refl;
  map_given = refl;
  user_given = refl;
  pass_given = refl;
  creator_given = refl;
  node_given = omega arith;
}

parse_arguments-written_example : parse_arguments (written options) ≡ settled settings
parse_arguments-written_example =
    parse_arguments-written settings options
      (refl, (refl, ((refl, refl), (port_text, (ip_text, (refl, (refl, tt))))))) options-Complete
      (λ z. absurd (omega arith))
