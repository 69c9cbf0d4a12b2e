-- ===== src/Client/Events.antt =====
-- `simulationEventLoop` of base/cf.cpp: the messages of the server, from the start of the simulation
-- on. The number `n` bounds the calls of the system's `recv` for one transfer.
pub mod Delivery
use resilient_overlay_networ.Base.{
  ℕ, zero, suc, ◌+◌, ◌-◌, ◌%◌, ◌^◌, List, [], ◌∷◌, Option, none, some, not, ◌||◌, ◌==◌, ltb, leb,
  if◌then◌else◌, length, drop,
}
use resilient_overlay_networ.Wire.Order.{ntohs, ntohl, read16, read32}
use resilient_overlay_networ.Client.Transfer.{Socket, Received, received, failed, running, receive}

-- `FRAME_BUFFER_SIZE`, and two types of `StubCommunicationProtocolType`.
abbrev pub frame_buffer_size : ℕ
frame_buffer_size = 1524

abbrev pub raw_frame_received_notification_type : ℕ
raw_frame_received_notification_type = 4

abbrev pub invalid_interface_index_type : ℕ
invalid_interface_index_type = 5

-- What an iteration does before the next one: it prints a warning, or hands a frame to the machine
-- with the index of its interface.
pub data Event : Type 0 where
  warning : List ℕ → Event
  process_frame : List ℕ → ℕ → Event

-- How the loop ends: with an error code, by handing `recv` more room than the buffer has, or not at
-- all, in a transfer or after the given number of iterations.
pub data End : Type 0 where
  aborted : ℕ → End
  overrun : End
  waiting : End
  unfinished : End

pub data Step (S : Type 0) : Type 0 where
  next : Event → S → ℕ → Step S
  last : End → Step S

unfoldable pub put_event : Event → List Event × End → List Event × End
put_event event (events, end) = (event ∷ events, end)

module _ {S : Type 0} where
  unfoldable pub on_received : Received S → ℕ → (List ℕ → S → Step S) → Step S
  on_received (received bytes s) code f = f bytes s
  on_received failed code f = last (aborted code)
  on_received running code f = last waiting

  -- A transfer into `buffer`.
  unfoldable pub fetch : Socket S → ℕ → ℕ → S → ℕ → (List ℕ → S → Step S) → Step S
  fetch socket n size s code f =
      if ltb frame_buffer_size size
      then last overrun
      else on_received (receive socket n size s) code f

  unfoldable pub or_overrun : Option ℕ → (ℕ → Step S) → Step S
  or_overrun none f = last overrun
  or_overrun (some v) f = f v

  -- The frame behind its interface index, which is a signed number.
  unfoldable pub raw_frame : ℕ → ℕ → ℕ → List ℕ → S → Step S
  raw_frame count_of_interfaces size received_bytes buf s = or_overrun (read32 buf 0) λ word.
      let interface_index = ntohl word in
      if leb (2 ^ 31) interface_index || leb count_of_interfaces interface_index
      then last (aborted 30)
      else next (process_frame (drop 4 buf) interface_index) s
          ((received_bytes + (size - 4)) % 2 ^ 64)

  unfoldable pub on_header : Socket S → ℕ → ℕ → ℕ → ℕ → ℕ → S → Step S
  on_header socket n count_of_interfaces received_bytes c size s =
      if c == invalid_interface_index_type
      then (if ltb size 1
          then last (aborted 27)
          else fetch socket n size s 27 λ desc s'. next (warning desc) s' received_bytes)
      else if not (c == raw_frame_received_notification_type)
          || (ltb size 4 || ltb frame_buffer_size size)
      then last (aborted 28)
      else fetch socket n size s 29 (raw_frame count_of_interfaces size received_bytes)

  unfoldable pub simulation_event : Socket S → ℕ → ℕ → ℕ → S → Step S
  simulation_event socket n count_of_interfaces received_bytes s = fetch socket n 6 s 26 λ buf s'.
      or_overrun (read32 buf 0) λ c.
        or_overrun (read16 buf 4)
          λ size. on_header socket n count_of_interfaces received_bytes (ntohl c) (ntohs size) s'

  unfoldable pub simulation_event_loop : Socket S → ℕ → ℕ → ℕ → ℕ → S → List Event × End
  simulation_event_loop socket n zero count_of_interfaces received_bytes s = ([], unfinished)
  simulation_event_loop socket n (suc rounds) count_of_interfaces received_bytes s =
      elim (simulation_event socket n count_of_interfaces received_bytes s) [
        | next event s' received_bytes' ↦
            put_event event
              (simulation_event_loop socket n rounds count_of_interfaces received_bytes' s')
        | last end ↦ ([], end)
      ]
