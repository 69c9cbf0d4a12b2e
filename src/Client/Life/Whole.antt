-- ===== src/Client/Life/Whole.antt =====
-- Whole lives of the client: over two connections, and as the one that releases a map.
use resilient_overlay_networ.Base.{
  ◌+◌, ℕ, suc, ◌-◌, ◌^◌, ◌≤◌, ◌<◌, ◌≡◌, refl, ap, ◌∙◌, List, [], ◌++◌, none, some, true, length,
  All, arith,
}
use mathlib.Core.List.{append-nil}
use resilient_overlay_networ.Base.Texts.{IsText}
use resilient_overlay_networ.Wire.Network.{be32}
use resilient_overlay_networ.Client.Arguments.{Settings, settled, parse_arguments}
use resilient_overlay_networ.Client.Transfer.{Socket}
use resilient_overlay_networ.Client.Transfer.Complete.{Delivers}
use resilient_overlay_networ.Client.Transfer.Streams.{Separate}
use resilient_overlay_networ.Client.Events.{Event, aborted, simulation_event_loop}
use resilient_overlay_networ.Client.Events.Delivery.{
  header, notifications, Fits, processed, counted, unknown_aborted,
}
use resilient_overlay_networ.Client.Session.{Session}
use resilient_overlay_networ.Client.Negotiation.{own_map, map_verdict, do_initial_negotiations}
use resilient_overlay_networ.Client.Negotiation.Information.{Described}
use resilient_overlay_networ.Client.Negotiation.Information
use resilient_overlay_networ.Client.Negotiation.Requests.{do_signing_in_negotiations-sent}
use resilient_overlay_networ.Client.Negotiation.Map.{do_map_selecting_negotiations-sent}
use resilient_overlay_networ.Client.Negotiation.Whole.{Short, accepted}
use resilient_overlay_networ.Client.Life.{
  System, Run, exit_status, returned, connect_to_server, again, received_after, prepend,
  behind_loop, system_interrupt, or_minus_one, recovery, recover_simulation, run_cf, main,
}
use resilient_overlay_networ.Client.Life.Recovery.{recover_simulation-resumed}
use resilient_overlay_networ.Client.Life.Started.{
  frame_events, processed-frames, whole_answer, run_cf-started,
}

-- What was short enough for the first connection is so for the next.
Short-again : (settings : Settings) → Short settings → Short (again (own_map settings))
unfolding own_map
Short-again settings short = ground arith

module _ {W S : Type 0} (system : System W S) (socket : Socket S) where
  -- The connection cannot be made again.
  recover_simulation-refused :
      (n turns rounds count received_bytes : ℕ) (settings : Settings) (events : List Event)
      (w w' : W)
      → connect_to_server system (again settings) (system.close w) ≡ (none, w')
      → recover_simulation system socket n (suc turns) rounds count received_bytes settings events w
        ≡ ([], returned)
  unfolding recover_simulation
  recover_simulation-refused n turns rounds count rb settings events w w' c =
      let later = λ (settings' : Settings) (events' : List Event) (w'' : W).
        recover_simulation system socket n turns rounds count (received_after rb events') settings'
          events' w'' in
      ap (recovery system socket n later rounds count rb settings events) c

  interrupted :
      (xs ys : List Event) (run1 run2 : Run)
      → run1 ≡ prepend ys run2
      → run2 ≡ ([], returned)
      → system_interrupt (prepend xs run1) ≡ (xs ++ ys, exit_status 0)
  unfolding system_interrupt prepend
  interrupted xs ys run1 run2 e f =
      rw (e, f) (ap (λ (t : List Event). (xs ++ t, exit_status 0)) (append-nil ys))

module _ {W S : Type 0} (system : System W S) (socket : Socket S) (laws : Delivers socket)
    (apart : Separate socket) where
  -- The client starts with a server that accepts, describes the interfaces and the custom
  -- information, and sends frames, until a message comes that the loop does not know. The connection is
  -- made again, the server accepts, and sends more frames, until such a message. Then the connection
  -- cannot be made again. The machine has got all the frames, in their order and each once, and the
  -- program ends with status 0. The texts are short enough for the buffer of 1524 bytes, the node's not
  -- empty; there are between one and 2 ^ 31 - 1 descriptions that fit the buffer; the frames fit, and
  -- are for interfaces that were described; `sigaction` and `pthread_create` succeed; the socket makes
  -- progress in each call, with 1524 calls allowed for one transfer and a round of the loop for each
  -- message, and its two directions are apart.
  pub run_cf-resumed :
      (n turns rounds type size type' size' : ℕ) (settings : Settings) (ds : List Described)
      (info buffer : List ℕ) (w w1 w2 w3 : W) (sfd sfd' : S) (xs ys : List (List ℕ × ℕ))
      (rest rest' : List ℕ)
      → 1524 ≤ n
      → Short settings
      → 0 < length ds
      → length ds < 2 ^ 31
      → All Information.Fits ds
      → IsText info
      → length info < 1524
      → length buffer ≡ 1524
      → length (system.scratch (frame_events xs)) ≡ 1524
      → system.sigaction ≡ true
      → system.pthread_create ≡ true
      → connect_to_server system settings w ≡ (some sfd, w1)
      → connect_to_server system (again (own_map settings)) (system.close w1) ≡ (some sfd', w2)
      → connect_to_server system (again (own_map settings)) (system.close w2) ≡ (none, w3)
      → socket.incoming sfd ≡ whole_answer ds info (notifications xs ++ (header type size ++ rest))
      → socket.incoming sfd'
        ≡ accepted (be32 3 ++ (notifications ys ++ (header type' size' ++ rest')))
      → All (Fits (length ds)) xs
      → All (Fits (length ds)) ys
      → length xs < rounds
      → length ys < rounds
      → (5 < type) × (type < 2 ^ 32) × (size < 2 ^ 16)
      → (5 < type') × (type' < 2 ^ 32) × (size' < 2 ^ 16)
      → run_cf system socket n (suc (suc turns)) rounds settings buffer w
        ≡ (frame_events xs ++ frame_events ys, exit_status 0)
  unfolding behind_loop
  run_cf-resumed n turns rounds type size type' size' settings ds info buffer w w1 w2 w3 sfd sfd' xs
        ys rest rest' fuel short some_one few fits text small full full' sig pth c1 c2 c3 e e' fx fy
        lx ly (lo, hi, b) (lo', hi', b') =
      let rb = received_after 0 (frame_events xs) in
      let later = λ (events' : List Event).
        recover_simulation system socket n (suc turns) rounds (length ds)
          (received_after rb events') (again (own_map settings)) events' w2 in
      let first =
        run_cf-started system socket laws apart n (suc (suc turns)) rounds type size settings ds
          info buffer w w1 sfd xs rest fuel short some_one few fits text small full sig pth c1 e fx
          lx lo hi b in
      let (_, behind, _, _, second, frames, i) =
        recover_simulation-resumed system socket laws apart n (suc turns) rounds (length ds) rb
          (own_map settings) (frame_events xs) w1 w2 sfd' ys (header type' size' ++ rest') fuel
          (Short-again settings short) full' c2 e' few fy (omega arith) in
      let one : rounds - length ys ≡ suc (rounds - length ys - 1) = omega arith in
      let last =
        ap (λ k. simulation_event_loop socket n k (length ds) (counted ys rb) behind) one
        ∙ unknown_aborted socket laws n (length ds) (counted ys rb) (rounds - length ys - 1) type'
            size' rest' behind (omega arith) lo' hi' b' i in
      let loop = frames ∙ ap (processed ys) last ∙ processed-frames ys (aborted 28) in
      let third =
        recover_simulation-refused system socket n turns rounds (length ds)
          (received_after rb (frame_events ys)) (again (own_map settings)) (frame_events ys) w2 w3
          c3 in
      first
      ∙ interrupted system socket (frame_events xs) (frame_events ys) _ _
          (second ∙ ap (behind_loop later) loop) third

  -- The server signs the user in, and answers to the selection of the map that the resources of the
  -- map instance are released, as after `--free`: the program ends with -1 like after a refusal. The
  -- arguments are read without an error, with a node's name or without; the user's name is of at most
  -- 20 bytes, the password of at most 50, and the map's name and its creator of at most 1512 in all; the
  -- buffer has 1524 bytes; the socket makes progress in each call, with 1524 calls allowed for one transfer, and its two
  -- directions are apart.
  pub main-freed :
      (n turns rounds : ℕ) (argv : List (List ℕ)) (settings : Settings) (buffer rest : List ℕ)
      (w w' : W) (sfd : S)
      → 1524 ≤ n
      → parse_arguments argv ≡ settled settings
      → length settings.user_name ≤ 20
      → length settings.password ≤ 50
      → length settings.map_name + length (own_map settings).creator_id ≤ 1512
      → length buffer ≡ 1524
      → connect_to_server system settings w ≡ (some sfd, w')
      → socket.incoming sfd ≡ (be32 0 ++ be32 1) ++ ((be32 1 ++ be32 6) ++ rest)
      → main system socket n turns rounds argv buffer w ≡ ([], exit_status 255)
  unfolding main run_cf or_minus_one do_initial_negotiations map_verdict
  main-freed n turns rounds argv settings buffer rest w w' sfd fuel parsed user password map full c
        e =
      let s : Session S = record { sfd = sfd; buffer = buffer } in
      let (s1, r1, l1) =
        do_signing_in_negotiations-sent socket laws apart n 0 1 settings _ s fuel (omega arith)
          (omega arith) user password full e in
      let (s2, r2, l2) =
        do_map_selecting_negotiations-sent socket laws apart n 1 6 settings rest s1 fuel
          (omega arith) (omega arith) map l1.full l1.in_left in
      rw (main, parsed, run_cf, c, r1, r2) refl
