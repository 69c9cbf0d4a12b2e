-- ===== src/Client/Life.antt =====
-- The life of the client in base/cf.cpp and base/main.cpp, as the main thread sees it: the connection,
-- the negotiations, the start, the event loop, and `recoverSimulation` behind it. The number `n` bounds
-- the calls of the system for one transfer, `rounds` those of the event loop on one connection.
pub mod Recovery
pub mod Started
pub mod Whole
mod Tests
use resilient_overlay_networ.Base.{
  ℕ, zero, suc, ◌+◌, ◌%◌, ◌^◌, List, [], ◌∷◌, ◌++◌, Option, none, some, Bool, true, false,
  if◌then◌else◌, length,
}
use resilient_overlay_networ.Wire.Order.{htons, htonl}
use resilient_overlay_networ.Client.Arguments.{
  Settings, Reading, settled, usage, fault, parse_arguments,
}
use resilient_overlay_networ.Client.Transfer.{Socket}
use resilient_overlay_networ.Client.Events.{
  Event, warning, process_frame, End, aborted, overrun, waiting, unfinished, simulation_event_loop,
}
use resilient_overlay_networ.Client.Machine.{Machine, count_of_interfaces}
use resilient_overlay_networ.Client.Session
use resilient_overlay_networ.Client.Session.{Session, Outcome, ◌>>=◌, done, refused, exited}
use resilient_overlay_networ.Client.Negotiation.{
  do_initial_negotiations, do_initial_recovery_negotiations, announce_simulation_resume,
}

-- The system: `socket` gives a descriptor, `connect` takes it to the address and the port in the fields
-- of a sockaddr and says whether that succeeded, `close` closes the client's descriptor; whether
-- `sigaction` and `pthread_create` succeed; and what the event loop has left in the buffer.
pub record System (W S : Type 0) : Type 0 where
  pub socket : W → Option S × W
  pub connect : S → ℕ → ℕ → W → Bool × S × W
  pub close : W → W
  pub sigaction : Bool
  pub pthread_create : Bool
  pub scratch : List Event → List ℕ

-- How a function of the client ends: it returns, the program ends with this status, it reads or writes
-- outside of its memory, or it is still in a transfer or in the loop.
pub data Ending : Type 0 where
  returned : Ending
  exit_status : ℕ → Ending
  crashed : Ending
  transferring : Ending
  looping : Ending

-- What the machine was given on the way, and the ending.
abbrev pub Run : Type 0
Run = List Event × Ending

unfoldable pub prepend : List Event → Run → Run
prepend events (later, ending) = (events ++ later, ending)

-- `receivedBytes` behind the frames that were handed on.
unfoldable pub received_after : ℕ → List Event → ℕ
received_after received_bytes [] = received_bytes
received_after received_bytes (warning desc ∷ events) = received_after received_bytes events
received_after received_bytes (process_frame frame index ∷ events) =
    received_after ((received_bytes + length frame) % 2 ^ 64) events

-- A step of `runCF`: the program ends with -1 where it returns false.
unfoldable pub or_minus_one : {A : Type 0} → Outcome A → (A → Run) → Run
or_minus_one (done a) f = f a
or_minus_one (refused code) f = ([], exit_status 255)
or_minus_one exited f = ([], exit_status 0)
or_minus_one Outcome.fault f = ([], crashed)
or_minus_one Outcome.waiting f = ([], transferring)

-- `systemInterrupt (SIGINT)` behind `simulateMachine`.
unfoldable pub system_interrupt : Run → Run
system_interrupt (events, returned) = (events, exit_status 0)
system_interrupt (events, exit_status status) = (events, exit_status status)
system_interrupt (events, crashed) = (events, crashed)
system_interrupt (events, transferring) = (events, transferring)
system_interrupt (events, looping) = (events, looping)

-- `recoverSimulation` behind an event loop that has ended.
unfoldable pub behind_loop : (List Event → Run) → List Event × End → Run
behind_loop recover (events, aborted code) = prepend events (recover events)
behind_loop recover (events, overrun) = (events, crashed)
behind_loop recover (events, waiting) = (events, transferring)
behind_loop recover (events, unfinished) = (events, looping)

-- `needNewMap = 0`
abbrev pub again : Settings → Settings
again settings = record settings { need_new_map = 0 }

-- The host's address and port are handed over as in `server`.
unfoldable pub connect_to_server : {W S : Type 0} → System W S → Settings → W → Option S × W
connect_to_server system settings w =
    let (descriptor, w1) = system.socket w in
    elim descriptor [
      | none ↦ (none, w1)
      | some sfd ↦
          let (success, sfd', w2) =
            system.connect sfd (htonl settings.ip) (htons settings.port) w1 in
          if success then (some sfd', w2) else (none, w2)
    ]

module _ {S : Type 0} (socket : Socket S) (n : ℕ) where
  unfoldable pub negotiate_again : Settings → List ℕ → Option S → Outcome (Settings × Session S)
  negotiate_again settings buffer none = refused 0
  negotiate_again settings buffer (some sfd) = do
    (settings', s) ←
        do_initial_recovery_negotiations socket n settings (record { sfd = sfd; buffer = buffer })
    s' ← announce_simulation_resume socket n s
    done (settings', s')

module _ {W S : Type 0} (system : System W S) (socket : Socket S) (n : ℕ) where
  -- One round of `recoverSimulation` on what the connection has come to, and the later ones.
  unfoldable pub recovery :
      (Settings → List Event → W → Run) → ℕ → ℕ → ℕ → Settings → List Event → Option S × W → Run
  unfolding negotiate_again behind_loop
  recovery later rounds count received_bytes settings events (descriptor, w) =
      elim (negotiate_again socket n (again settings) (system.scratch events) descriptor) [
        | done (settings', s) ↦
            behind_loop (λ events'. later settings' events' w)
              (simulation_event_loop socket n rounds count received_bytes s.sfd)
        | refused code ↦ ([], returned)
        | exited ↦ ([], exit_status 0)
        | Outcome.fault ↦ ([], crashed)
        | Outcome.waiting ↦ ([], transferring)
      ]

  -- One more round for each number of `turns`; behind a refusal the loop is left.
  unfoldable pub recover_simulation : ℕ → ℕ → ℕ → ℕ → Settings → List Event → W → Run
  unfolding recovery
  recover_simulation zero rounds count received_bytes settings events w = ([], looping)
  recover_simulation (suc turns) rounds count received_bytes settings events w =
      recovery
        (λ settings' events' w'.
          recover_simulation turns rounds count (received_after received_bytes events') settings'
            events' w')
        rounds count received_bytes settings events
        (connect_to_server system (again settings) (system.close w))

  unfoldable pub simulate_machine : ℕ → ℕ → Settings → Machine → Session S → W → Run
  unfolding behind_loop
  simulate_machine turns rounds settings m s w =
      if system.pthread_create
      then behind_loop
          (λ events.
            recover_simulation turns rounds (count_of_interfaces m) (received_after 0 events)
              settings events w)
          (simulation_event_loop socket n rounds (count_of_interfaces m) 0 s.sfd)
      else ([], returned)

  -- The dialog is that of `announceSimulationResume`.
  unfoldable pub start_simulation : ℕ → ℕ → Settings → Machine → Session S → W → Run
  unfolding or_minus_one system_interrupt
  start_simulation turns rounds settings m s w =
      or_minus_one (announce_simulation_resume socket n s) λ s'.
        if system.sigaction
        then system_interrupt (simulate_machine turns rounds settings m s' w)
        else ([], exit_status 255)

  unfoldable pub negotiate : ℕ → ℕ → Settings → List ℕ → Option S × W → Run
  unfolding or_minus_one
  negotiate turns rounds settings buffer (none, w) = ([], exit_status 255)
  negotiate turns rounds settings buffer (some sfd, w) =
      or_minus_one
        (do_initial_negotiations socket n settings (record { sfd = sfd; buffer = buffer }))
        λ (settings', m, s). start_simulation turns rounds settings' m s w

  unfoldable pub run_cf : ℕ → ℕ → Settings → List ℕ → W → Run
  unfolding negotiate
  run_cf turns rounds settings buffer w =
      negotiate turns rounds settings buffer (connect_to_server system settings w)

  -- `main`, on the arguments behind the name of the program; `usage` ends it with -1.
  unfoldable pub main : ℕ → ℕ → List (List ℕ) → List ℕ → W → Run
  main turns rounds argv buffer w = elim (parse_arguments argv) [
    | settled settings ↦ run_cf turns rounds settings buffer w
    | usage ↦ ([], exit_status 255)
    | fault ↦ ([], crashed)
  ]
