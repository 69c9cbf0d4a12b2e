-- ===== src/Client/Life/Tests.antt =====
-- A client with a server that closes the connection twice, and one that releases a map.
use resilient_overlay_networ.Base.{
  ℕ, ◌≡◌, refl, List, [], ◌∷◌, ◌++◌, Option, none, some, true, false, arith,
}
use resilient_overlay_networ.Base.Texts.{codes}
use resilient_overlay_networ.Wire.Network.{be32}
use resilient_overlay_networ.Client.Arguments.{
  Settings, minus_one, settled, parse_arguments, argument_loop, finish, store,
}
use resilient_overlay_networ.Client.Args.{
  parse_ip, parse_port, parse_parts, split_dot, parse_part, port_loop,
}
use resilient_overlay_networ.Client.Events.{Event}
use resilient_overlay_networ.Client.Events.Delivery.{header, notifications, processed, counted}
use resilient_overlay_networ.Client.Events
use resilient_overlay_networ.Client.Slow.{
  Line, slow, slow-Delivers, slow-Separate, zeros, length-zeros,
}
use resilient_overlay_networ.Client.Session.{Session, done}
use resilient_overlay_networ.Client.Negotiation.{own_map}
use resilient_overlay_networ.Client.Negotiation.Information.{Described}
use resilient_overlay_networ.Client.Negotiation.Whole.{Short, accepted}
use resilient_overlay_networ.Client.Life.{
  System, negotiate_again, exit_status, connect_to_server, again, received_after, behind_loop,
  recover_simulation, run_cf, main,
}
use resilient_overlay_networ.Client.Life.Recovery.{return_bytes, recover_simulation-resumed}
use resilient_overlay_networ.Client.Life.Started.{frame_events, whole_answer}
use resilient_overlay_networ.Client.Life.Whole.{run_cf-resumed, main-freed}

-- The connections that can still be made, each with what the server will send on it.
abbrev Ready : Type 0
Ready = List (List ℕ)

abbrev next_line : Ready → Option Line × Ready
next_line [] = (none, [])
next_line (bytes ∷ ready) = (some (bytes, []), ready)

abbrev system : System Ready Line
system = record {
  socket = next_line;
  connect = λ s ip port w. (true, s, w);
  close = λ w. w;
  sigaction = true;
  pthread_create = true;
  scratch = λ events. zeros 1524;
}

abbrev settings : Settings
settings = record {
  ip = 0x7f00_0001;
  port = 7891;
  map_name = codes "overlay";
  node_name = codes "node1";
  user_name = codes "ali";
  password = codes "1234";
  creator_id = [];
  need_new_map = 1;
}

settings-Short : Short settings
unfolding own_map
settings-Short = record {
  user_le = omega arith;
  password_le = omega arith;
  map_le = omega arith;
  node_some = omega arith;
  node_le = omega arith;
}

again-Short : Short (again settings)
unfolding own_map
again-Short = record {
  user_le = omega arith;
  password_le = omega arith;
  map_le = omega arith;
  node_some = omega arith;
  node_le = omega arith;
}

abbrev described : List Described
described =
    (record {
      is_physical = false;
      unread = [];
      mac = record { b0 = 0; b1 = 1; b2 = 2; b3 = 3; b4 = 4; b5 = 5 };
      b6 = 0;
      b7 = 0;
      ip = 0xc0a8_0001;
      mask = 0xffff_ff00;
    })
    ∷ []

abbrev xs : List (List ℕ × ℕ)
xs = (1 ∷ 2 ∷ [], 0) ∷ []

abbrev ys : List (List ℕ × ℕ)
ys = (3 ∷ [], 0) ∷ (4 ∷ [], 0) ∷ []

abbrev first_line : List ℕ
first_line = whole_answer described (codes "x") (notifications xs ++ (header 9 0 ++ []))

abbrev second_line : List ℕ
second_line = accepted (be32 3 ++ (notifications ys ++ (header 9 0 ++ [])))

recover_simulation-resumed_example :
    (s : Session Line) × (behind : Line) × (negotiate_again slow 1524
        (again settings)
        (zeros 1524)
        (some (second_line, []))
      ≡ done (again settings, s))
    × (slow.outgoing s.sfd ≡ [] ++ return_bytes settings)
    × (recover_simulation system slow 1524 1 5 1 0 settings [] (second_line ∷ [])
        ≡ behind_loop
            (λ events'.
              recover_simulation system slow 1524 0 5 1
                (received_after 0 events')
                (again settings)
                events'
                [])
            (Events.simulation_event_loop slow 1524 5 1 0 s.sfd))
    × (Events.simulation_event_loop slow 1524 5 1 0 s.sfd
        ≡ processed ys (Events.simulation_event_loop slow 1524 3 1 (counted ys 0) behind))
    × (slow.incoming behind ≡ header 9 0 ++ [])
unfolding connect_to_server
recover_simulation-resumed_example =
    recover_simulation-resumed system slow slow-Delivers slow-Separate 1524 0 5 1 0 settings []
      (second_line ∷ []) [] (second_line, []) ys (header 9 0 ++ []) (omega arith) again-Short
      (length-zeros 1524) refl refl (omega arith)
      ((omega arith, omega arith), ((omega arith, omega arith), tt)) (omega arith)

run_cf-resumed_example :
    run_cf system slow 1524 2 5 settings (zeros 1524) (first_line ∷ second_line ∷ [])
    ≡ (frame_events xs ++ frame_events ys, exit_status 0)
unfolding connect_to_server
run_cf-resumed_example =
    run_cf-resumed system slow slow-Delivers slow-Separate 1524 0 5 9 0 9 0 settings described
      (codes "x") (zeros 1524) (first_line ∷ second_line ∷ []) (second_line ∷ []) [] []
      (first_line, []) (second_line, []) xs ys [] [] (omega arith) settings-Short (omega arith)
      (omega arith)
      (record { in_buffer = omega arith; ip_lt = omega arith; mask_lt = omega arith }, tt)
      (λ z. absurd (omega arith), tt) (omega arith) (length-zeros 1524) (length-zeros 1524) refl
      refl refl refl refl refl refl ((omega arith, omega arith), tt)
      ((omega arith, omega arith), ((omega arith, omega arith), tt)) (omega arith) (omega arith)
      (omega arith, omega arith, omega arith) (omega arith, omega arith, omega arith)

-- `--free` with the options of free.sh.
abbrev freeing : Settings
freeing = record settings { need_new_map = minus_one; node_name = [] }

abbrev argv : List (List ℕ)
argv =
    codes "--ip"
    ∷ codes "127.0.0.1"
    ∷ codes "--port"
    ∷ codes "7891"
    ∷ codes "--map"
    ∷ codes "overlay"
    ∷ codes "--user"
    ∷ codes "ali"
    ∷ codes "--pass"
    ∷ codes "1234"
    ∷ codes "--free"
    ∷ []

argv-settled : parse_arguments argv ≡ settled freeing
unfolding parse_arguments argument_loop finish store parse_ip parse_port parse_parts split_dot
    parse_part port_loop
argv-settled = refl

abbrev released : List ℕ
released = (be32 0 ++ be32 1) ++ ((be32 1 ++ be32 6) ++ [])

main-freed_example :
    main system slow 1524 2 5 argv (zeros 1524) (released ∷ []) ≡ ([], exit_status 255)
unfolding connect_to_server own_map
main-freed_example =
    main-freed system slow slow-Delivers slow-Separate 1524 2 5 argv freeing (zeros 1524) []
      (released ∷ []) [] (released, []) (omega arith) argv-settled (omega arith) (omega arith)
      (omega arith) (length-zeros 1524) refl refl
