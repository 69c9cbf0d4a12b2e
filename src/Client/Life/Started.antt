-- ===== src/Client/Life/Started.antt =====
-- `runCF` with a server that accepts, and what its frames come to over two connections.
use resilient_overlay_networ.Base.{
  ℕ, suc, ◌+◌, ◌-◌, ◌^◌, ◌≤◌, ◌<◌, ◌≡◌, refl, ap, ◌∙◌, List, [], ◌∷◌, ◌++◌, some, true, length, All,
  arith,
}
use resilient_overlay_networ.Base.Texts.{IsText}
use resilient_overlay_networ.Wire.Network.{be32}
use resilient_overlay_networ.Client.Arguments.{Settings}
use resilient_overlay_networ.Client.Transfer.{Socket}
use resilient_overlay_networ.Client.Transfer.Complete.{Delivers}
use resilient_overlay_networ.Client.Transfer.Streams.{Separate}
use resilient_overlay_networ.Client.Events.{
  Event, End, aborted, process_frame, put_event, simulation_event_loop,
}
use resilient_overlay_networ.Client.Events.Delivery.{
  header, notifications, Fits, processed, counted, notifications-processed, unknown_aborted,
}
use resilient_overlay_networ.Client.Negotiation.{own_map}
use resilient_overlay_networ.Client.Negotiation.Information.{Described}
use resilient_overlay_networ.Client.Negotiation.Information
use resilient_overlay_networ.Client.Negotiation.Synchronized.{
  interfaces, interfaces_answer, custom_answer,
}
use resilient_overlay_networ.Client.Negotiation.Whole.{
  Short, accepted, do_initial_negotiations-accepted, announce_simulation_resume-sent,
}
use resilient_overlay_networ.Client.Life.{
  System, connect_to_server, received_after, prepend, behind_loop, system_interrupt, or_minus_one,
  recover_simulation, simulate_machine, start_simulation, run_cf,
}

length-interfaces : (index : ℕ) (ds : List Described) → length (interfaces index ds) ≡ length ds
length-interfaces index [] = refl
length-interfaces index (d ∷ ds) = ap suc (length-interfaces (suc index) ds)

-- The frames as the machine gets them.
abbrev pub frame_events : List (List ℕ × ℕ) → List Event
frame_events [] = []
frame_events ((frame, index) ∷ xs) = process_frame frame index ∷ frame_events xs

pub processed-frames :
    (xs : List (List ℕ × ℕ)) (end : End) → processed xs ([], end) ≡ (frame_events xs, end)
unfolding put_event
processed-frames [] end = refl
processed-frames ((frame, index) ∷ xs) end =
    ap (put_event (process_frame frame index)) (processed-frames xs end)

-- What a server sends that accepts, describes the machine, and starts.
abbrev pub whole_answer : List Described → List ℕ → List ℕ → List ℕ
whole_answer ds info rest =
    accepted (interfaces_answer ds ++ (custom_answer info ++ (be32 3 ++ rest)))

module _ {W S : Type 0} (system : System W S) (socket : Socket S) (laws : Delivers socket)
    (apart : Separate socket) where
  -- The first connection, up to a message that the loop does not know.
  pub run_cf-started :
      (n turns rounds type size : ℕ) (settings : Settings) (ds : List Described) (info : List ℕ)
      (buffer : List ℕ) (w w1 : W) (sfd : S) (xs : List (List ℕ × ℕ)) (rest : List ℕ)
      → 1524 ≤ n
      → Short settings
      → 0 < length ds
      → length ds < 2 ^ 31
      → All Information.Fits ds
      → IsText info
      → length info < 1524
      → length buffer ≡ 1524
      → system.sigaction ≡ true
      → system.pthread_create ≡ true
      → connect_to_server system settings w ≡ (some sfd, w1)
      → socket.incoming sfd ≡ whole_answer ds info (notifications xs ++ (header type size ++ rest))
      → All (Fits (length ds)) xs
      → length xs < rounds
      → 5 < type
      → type < 2 ^ 32
      → size < 2 ^ 16
      → run_cf system socket n turns rounds settings buffer w
        ≡ system_interrupt (
            prepend (frame_events xs) (
              recover_simulation system socket n turns rounds
                (length ds)
                (received_after 0 (frame_events xs))
                (own_map settings)
                (frame_events xs)
                w1))
  unfolding run_cf start_simulation simulate_machine or_minus_one behind_loop
  run_cf-started n turns rounds type size settings ds info buffer w w1 sfd xs rest fuel short
        some_one few fits text small full sig pth c e frames enough lo hi b =
      let (s1, r1, l1) =
        do_initial_negotiations-accepted socket laws apart n settings ds info _
          (record { sfd = sfd; buffer = buffer }) fuel short some_one few fits text small full e in
      let (s2, r2, l2) =
        announce_simulation_resume-sent socket laws apart n 3 _ s1 fuel (omega arith) l1.full
          l1.in_left in
      let (s3, r3, i3) =
        notifications-processed socket laws n (length ds) 0 (suc (rounds - length xs - 1)) xs
          (header type size ++ rest) s2.sfd fuel few frames l2.in_left in
      let split : rounds ≡ length xs + suc (rounds - length xs - 1) = omega arith in
      let last =
        unknown_aborted socket laws n (length ds) (counted xs 0) (rounds - length xs - 1) type size
          rest s3 (omega arith) lo hi b i3 in
      let loop : simulation_event_loop socket n rounds (length ds) 0 s2.sfd
          ≡ (frame_events xs, aborted 28) =
        ap (λ k. simulation_event_loop socket n k (length ds) 0 s2.sfd) split
        ∙ r3
        ∙ ap (processed xs) last
        ∙ processed-frames xs (aborted 28) in
      rw (run_cf, c, r1, r2, sig, pth, length-interfaces 0 ds, loop) refl
