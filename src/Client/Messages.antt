-- ===== src/Client/Messages.antt =====
-- `realSendFrame`, `realNotifyChangeOfIPAddress` and `realNotifyChangeOfNetmask` of base/cf.cpp. The
-- number `n` bounds the calls of the system's `send` for one buffer.
pub mod Sent
use resilient_overlay_networ.Base.{
  ℕ, ◌+◌, ◌-◌, ◌%◌, ◌^◌, List, [], ◌||◌, ltb, leb, if◌then◌else◌, length,
}
use resilient_overlay_networ.Wire.Order.{htons, htonl, le16, le32}
use resilient_overlay_networ.Client.Transfer.{
  Socket, Transmitted, transmitted, broken, sending, transmit,
}

-- The commands of `SimulationCommand`.
abbrev pub send_frame_command : ℕ
send_frame_command = 1

abbrev pub change_ip_address_command : ℕ
change_ip_address_command = 2

abbrev pub change_netmask_command : ℕ
change_netmask_command = 3

-- How a message ends: `true` with the socket and the counter `sentBytes`, `false` before or in the
-- transfer, or still in the transfer.
pub data Outcome (S : Type 0) : Type 0 where
  success : S → ℕ → Outcome S
  refused : Outcome S
  error : Outcome S
  pending : Outcome S

unfoldable pub frame_header : ℕ → ℕ → List ℕ
frame_header frame_length iface_index =
    le32 (htonl send_frame_command) (le16 (htons (4 + frame_length)) (le32 (htonl iface_index) []))

unfoldable pub change_message : ℕ → ℕ → ℕ → List ℕ
change_message command iface_index new_value =
    le32 (htonl command) (le32 (htonl iface_index) (le32 (htonl new_value) []))

module _ {S : Type 0} where
  unfoldable pub after : Transmitted S → (S → Outcome S) → Outcome S
  after (transmitted s) next = next s
  after broken next = error
  after sending next = pending

  unfoldable pub real_send_frame : Socket S → ℕ → List ℕ → ℕ → ℕ → S → Outcome S
  real_send_frame socket n frame iface_index sent_bytes s =
      if ltb (length frame) 14 || leb (2 ^ 16 - 4) (length frame)
      then refused
      else after (transmit socket n (frame_header (length frame) iface_index) s) λ s'.
        after (transmit socket n frame s') λ s''. success s'' ((sent_bytes + length frame) % 2 ^ 64)

  -- The two notifications differ in their command only.
  unfoldable pub real_notify_change : Socket S → ℕ → ℕ → ℕ → ℕ → ℕ → S → Outcome S
  real_notify_change socket n command new_value iface_index sent_bytes s =
      after (transmit socket n (change_message command iface_index new_value) s)
        λ s'. success s' sent_bytes

  unfoldable pub real_notify_change_of_ip_address : Socket S → ℕ → ℕ → ℕ → ℕ → S → Outcome S
  unfolding real_notify_change
  real_notify_change_of_ip_address socket n new_ip iface_index sent_bytes s =
      real_notify_change socket n change_ip_address_command new_ip iface_index sent_bytes s

  unfoldable pub real_notify_change_of_netmask : Socket S → ℕ → ℕ → ℕ → ℕ → S → Outcome S
  unfolding real_notify_change
  real_notify_change_of_netmask socket n new_netmask iface_index sent_bytes s =
      real_notify_change socket n change_netmask_command new_netmask iface_index sent_bytes s
