-- ===== src/Client/Tests.antt =====
-- Arguments, transfers, messages and the event loop at concrete values.
use resilient_overlay_networ.Base.{ℕ, suc, ◌+◌, ◌≡◌, refl, List, [], ◌∷◌, arith}
use resilient_overlay_networ.Client.Slow.{Line, slow, slow-Delivers}
use resilient_overlay_networ.Client.Args.{parse_port}
use resilient_overlay_networ.Client.Args.Port.{number, verdict, parse_port-verdict}
use resilient_overlay_networ.Client.Transfer.{received, running, receive}
use resilient_overlay_networ.Client.Transfer.Complete.{receive-next, receive-closed}
use resilient_overlay_networ.Client.Events.{simulation_event_loop, overrun}
use resilient_overlay_networ.Client.Events.Delivery.{
  header, notifications, processed, counted, notifications-processed, warning_overrun,
}

parse_port-verdict_example : parse_port (b'7' ∷ b'8' ∷ []) ≡ verdict (number (b'7' ∷ b'8' ∷ []) 0)
parse_port-verdict_example =
    parse_port-verdict (b'7' ∷ b'8' ∷ [])
      ((omega arith, omega arith), ((omega arith, omega arith), tt))

receive-next_example :
    (s' : Line) × (receive slow 4 3 (10 ∷ 20 ∷ 30 ∷ 40 ∷ [], []) ≡ received (10 ∷ 20 ∷ 30 ∷ []) s')
    × (slow.incoming s' ≡ 40 ∷ [])
receive-next_example =
    receive-next slow slow-Delivers 4 (10 ∷ 20 ∷ 30 ∷ []) (40 ∷ []) (10 ∷ 20 ∷ 30 ∷ 40 ∷ [], [])
      (omega arith) (omega arith) refl

receive-closed_example : receive slow 100 6 ([], []) ≡ running
receive-closed_example = receive-closed slow ([], []) 100 6 (λ size. refl) (omega arith)

-- The shortest frame that `realSendFrame` takes.
abbrev frame : List ℕ
frame = 1 ∷ 2 ∷ 3 ∷ 4 ∷ 5 ∷ 6 ∷ 7 ∷ 8 ∷ 9 ∷ 10 ∷ 11 ∷ 12 ∷ 13 ∷ 14 ∷ []

-- Two frames, for two interfaces.
abbrev frames : List (List ℕ × ℕ)
frames = (1 ∷ 2 ∷ [], 0) ∷ (frame, 1) ∷ []

notifications-processed_example :
    (s' : Line) × (simulation_event_loop slow 1524 (2 + 0) 2 0 (notifications frames, [])
      ≡ processed frames (simulation_event_loop slow 1524 0 2 (counted frames 0) s'))
    × (slow.incoming s' ≡ [])
notifications-processed_example =
    notifications-processed slow slow-Delivers 1524 2 0 0 frames [] (notifications frames, [])
      (omega arith) (omega arith) ((omega arith, omega arith), ((omega arith, omega arith), tt))
      refl

warning_overrun_example :
    simulation_event_loop slow 1524 (suc 0) 2 0 (header 5 2000, []) ≡ ([], overrun)
warning_overrun_example =
    warning_overrun slow slow-Delivers 1524 2 0 0 2000 [] (header 5 2000, []) (omega arith)
      (omega arith) (omega arith) refl
