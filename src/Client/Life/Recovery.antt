-- ===== src/Client/Life/Recovery.antt =====
-- `recoverSimulation` with a server that takes the client back.
use resilient_overlay_networ.Base.{
  ℕ, suc, ◌+◌, ◌-◌, ◌^◌, ◌≤◌, ◌<◌, ◌≡◌, refl, ap, sym, ◌∙◌, List, ◌++◌, some, length, All, arith,
}
use resilient_overlay_networ.Wire.Network.{be16, be32}
use resilient_overlay_networ.Client.Arguments.{Settings}
use resilient_overlay_networ.Client.Transfer.{Socket}
use resilient_overlay_networ.Client.Transfer.Complete.{Delivers}
use resilient_overlay_networ.Client.Transfer.Streams.{Separate}
use resilient_overlay_networ.Client.Events.{Event, End, simulation_event_loop}
use resilient_overlay_networ.Client.Events.Delivery.{
  notifications, Fits, processed, counted, notifications-processed,
}
use resilient_overlay_networ.Client.Session.{Session, done}
use resilient_overlay_networ.Client.Session.Steps.{text_bytes}
use resilient_overlay_networ.Client.Negotiation.{own_map}
use resilient_overlay_networ.Client.Negotiation.Reading.{Leaves}
use resilient_overlay_networ.Client.Negotiation.Requests.{sign_in_bytes, map_bytes, node_bytes}
use resilient_overlay_networ.Client.Negotiation.Whole.{
  Short, accepted, Leaves-then, do_initial_recovery_negotiations-accepted,
  announce_simulation_resume-sent,
}
use resilient_overlay_networ.Client.Life.{
  System, Run, connect_to_server, again, negotiate_again, received_after, behind_loop,
  recover_simulation, recovery,
}

-- Nobody's map is made or released in place of the user's.
own_map-again : (settings : Settings) → own_map (again settings) ≡ again settings
unfolding own_map
own_map-again settings = refl

-- What the client sends to come back: it signs in, names the map and its creator with the word 0, and
-- the node, and asks for the start.
abbrev pub return_bytes : Settings → List ℕ
return_bytes settings =
    (sign_in_bytes settings.user_name settings.password
      ++ ((be16 (length settings.map_name + length settings.creator_id + 10)
            ++ ((text_bytes settings.map_name ++ text_bytes settings.creator_id) ++ be32 0))
          ++ node_bytes settings.node_name))
    ++ be32 2

module _ {W S : Type 0} (system : System W S) (socket : Socket S) (laws : Delivers socket)
    (apart : Separate socket) where
  pub negotiate_again-accepted :
      (n : ℕ) (settings : Settings) (rest : List ℕ) (s : Session S)
      → 1524 ≤ n
      → Short (again settings)
      → length s.buffer ≡ 1524
      → socket.incoming s.sfd ≡ accepted (be32 3 ++ rest)
      → (s' : Session S) × (negotiate_again socket n (again settings) s.buffer (some s.sfd)
          ≡ done (again settings, s'))
        × Leaves socket s s' (return_bytes settings) rest
  unfolding negotiate_again
  negotiate_again-accepted n settings rest s fuel short full e =
      let same = own_map-again settings in
      let (s1, r1, l1) =
        do_initial_recovery_negotiations-accepted socket laws apart n (again settings)
          (be32 3 ++ rest) s fuel short full e in
      let (s2, r2, l2) =
        announce_simulation_resume-sent socket laws apart n 3 rest s1 fuel (omega arith) l1.full
          l1.in_left in
      let l : Leaves socket s s1
          (sign_in_bytes settings.user_name settings.password
            ++ (map_bytes (again settings) ++ node_bytes settings.node_name))
          (be32 3 ++ rest) =
        rw same at l1 in
      (s2, rw (r1, r2) (rw same refl), Leaves-then socket l l2)

  recovery_done :
      (n rounds count received_bytes : ℕ) (settings : Settings) (events : List Event) (w : W)
      (sfd : S) (s : Session S) (later : Settings → List Event → W → Run) (loop : List Event × End)
      → negotiate_again socket n (again settings) (system.scratch events) (some sfd)
        ≡ done (again settings, s)
      → simulation_event_loop socket n rounds count received_bytes s.sfd ≡ loop
      → recovery system socket n later rounds count received_bytes settings events (some sfd, w)
        ≡ behind_loop (λ events'. later (again settings) events' w) loop
  unfolding recovery
  recovery_done n rounds count rb settings events w sfd s later loop r e = rw (recovery, r, e) refl

  -- The event loop has ended, for whatever reason it gives, and the connection is made again. If the
  -- server accepts, starts, and sends some frames, the negotiations succeed, and leave the settings as
  -- they were, but for a new map, which is no longer wanted. On this connection they have sent the
  -- signing in, the map by its name and creator with the word 0, neither for a new one nor for the
  -- release of one, the node, and the request to start; the loop runs on this very connection, and hands
  -- the frames to the machine in their order, before anything that comes behind them. The texts are short
  -- enough for the buffer of 1524 bytes, the node's not empty; the frames fit, and the machine has their
  -- interfaces; the socket makes progress in each call, with 1524 calls allowed for one transfer and a
  -- round of the loop for each frame, and its two directions are apart.
  pub recover_simulation-resumed :
      (n turns rounds count received_bytes : ℕ) (settings : Settings) (events : List Event)
      (w w' : W) (sfd : S) (xs : List (List ℕ × ℕ)) (rest : List ℕ)
      → 1524 ≤ n
      → Short (again settings)
      → length (system.scratch events) ≡ 1524
      → connect_to_server system (again settings) (system.close w) ≡ (some sfd, w')
      → socket.incoming sfd ≡ accepted (be32 3 ++ (notifications xs ++ rest))
      → count < 2 ^ 31
      → All (Fits count) xs
      → length xs ≤ rounds
      → (s : Session S) × (behind : S) × (negotiate_again socket n
            (again settings)
            (system.scratch events)
            (some sfd)
          ≡ done (again settings, s))
        × (socket.outgoing s.sfd ≡ socket.outgoing sfd ++ return_bytes settings)
        × (recover_simulation system socket n
              (suc turns)
              rounds
              count
              received_bytes
              settings
              events
              w
            ≡ behind_loop
                (λ events'.
                  recover_simulation system socket n turns rounds count
                    (received_after received_bytes events')
                    (again settings)
                    events'
                    w')
                (simulation_event_loop socket n rounds count received_bytes s.sfd))
        × (simulation_event_loop socket n rounds count received_bytes s.sfd
            ≡ processed xs (
                simulation_event_loop socket n
                  (rounds - length xs)
                  count
                  (counted xs received_bytes)
                  behind))
        × (socket.incoming behind ≡ rest)
  unfolding recover_simulation
  recover_simulation-resumed n turns rounds count rb settings events w w' sfd xs rest fuel short
        full c e few fits enough =
      let (s, r, l) =
        negotiate_again-accepted n settings (notifications xs ++ rest)
          (record { sfd = sfd; buffer = system.scratch events }) fuel short full e in
      let (behind, r', i) =
        notifications-processed socket laws n count rb (rounds - length xs) xs rest s.sfd fuel few
          fits l.in_left in
      let split : length xs + (rounds - length xs) ≡ rounds = omega arith in
      let loop = ap (λ k. simulation_event_loop socket n k count rb s.sfd) (sym split) ∙ r' in
      let later = λ (settings' : Settings) (events' : List Event) (w'' : W).
        recover_simulation system socket n turns rounds count (received_after rb events') settings'
          events' w'' in
      (
        s,
        behind,
        r,
        l.out,
        ap (recovery system socket n later rounds count rb settings events) c
            ∙ recovery_done n rounds count rb settings events w' sfd s later _ r refl,
        loop,
        i,
      )
