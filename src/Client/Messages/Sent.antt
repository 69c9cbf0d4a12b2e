-- ===== src/Client/Messages/Sent.antt =====
-- What reaches the server.
use resilient_overlay_networ.Base.{
  ℕ, ◌+◌, ◌-◌, ◌%◌, ◌^◌, ◌≤◌, ◌<◌, ◌≡◌, refl, ap, ◌∙◌, List, [], ◌++◌, leb, false, length, arith,
  le→ltb,
}
use mathlib.Core.List.{append_assoc}
use resilient_overlay_networ.Wire.Network.{be16, be32, le16-htons, le32-htonl}
use resilient_overlay_networ.Client.Transfer.{Socket}
use resilient_overlay_networ.Client.Transfer.Complete.{Delivers, transmit-all}
use resilient_overlay_networ.Client.Messages.{
  success, after, frame_header, real_send_frame, change_message, real_notify_change,
  real_notify_change_of_ip_address, real_notify_change_of_netmask,
}

-- The header of a frame: the command, the number of bytes that follow, and the interface.
abbrev pub header_bytes : ℕ → ℕ → List ℕ
header_bytes frame_length iface_index = be32 1 ++ (be16 (4 + frame_length) ++ be32 iface_index)

abbrev pub change_bytes : ℕ → ℕ → ℕ → List ℕ
change_bytes command iface_index new_value = be32 command ++ (be32 iface_index ++ be32 new_value)

lt→leb : (a b : ℕ) → b < a → leb a b ≡ false
lt→leb a b h = ground arith

module _ {S : Type 0} (socket : Socket S) (laws : Delivers socket) where
  -- A frame of at least 14 and less than 65532 bytes reaches the server whole, behind its header:
  -- the command, the number of bytes that follow, and the interface, all in network byte order;
  -- `sentBytes` grows by its length, modulo 2 ^ 64. The socket is one that takes at least one byte
  -- in each call, and a call is allowed for each byte of the frame.
  pub real_send_frame-sent :
      (n : ℕ) (frame : List ℕ) (iface_index sent_bytes : ℕ) (s : S)
      → 14 ≤ length frame
      → length frame < 2 ^ 16 - 4
      → length frame ≤ n
      → (s' : S) × (real_send_frame socket n frame iface_index sent_bytes s
          ≡ success s' ((sent_bytes + length frame) % 2 ^ 64))
        × (socket.outgoing s'
            ≡ socket.outgoing s ++ (header_bytes (length frame) iface_index ++ frame))
  unfolding real_send_frame after frame_header
  real_send_frame-sent n frame iface_index sent_bytes s lo hi fuel =
      let header = frame_header (length frame) iface_index in
      let h : header ≡ header_bytes (length frame) iface_index =
        le32-htonl 1 _
        ∙ ap (λ t. be32 1 ++ t)
            (le16-htons (4 + length frame) _
              ∙ ap (λ t. be16 (4 + length frame) ++ t) (le32-htonl iface_index [])) in
      let (s', r, o) = transmit-all socket laws n header s (omega arith) (omega arith) in
      let (s'', r', o') = transmit-all socket laws n frame s' fuel (omega arith) in
      (
        s'',
        rw (le→ltb (length frame) 14 lo, lt→leb (2 ^ 16 - 4) (length frame) hi, r, r') refl,
        o'
            ∙ ap (λ t. t ++ frame) (o ∙ ap (λ t. socket.outgoing s ++ t) h)
            ∙ append_assoc (socket.outgoing s) (header_bytes (length frame) iface_index) frame,
      )

  pub notify-sent :
      (n command new_value iface_index sent_bytes : ℕ) (s : S)
      → 12 ≤ n
      → (s' : S) × (real_notify_change socket n command new_value iface_index sent_bytes s
          ≡ success s' sent_bytes)
        × (socket.outgoing s' ≡ socket.outgoing s ++ change_bytes command iface_index new_value)
  unfolding real_notify_change after change_message
  notify-sent n command new_value iface_index sent_bytes s fuel =
      let message = change_message command iface_index new_value in
      let h : message ≡ change_bytes command iface_index new_value =
        le32-htonl command _
        ∙ ap (λ t. be32 command ++ t)
            (le32-htonl iface_index _
              ∙ ap (λ t. be32 iface_index ++ t) (le32-htonl new_value [])) in
      let (s', r, o) = transmit-all socket laws n message s (omega arith) (omega arith) in
      (s', rw r refl, o ∙ ap (λ t. socket.outgoing s ++ t) h)

  -- On a socket that takes at least one byte in each call, with twelve calls of `send` allowed, a
  -- change of the address and then of the network mask of an interface both succeed, leave
  -- `sentBytes` alone, and reach the server in that order, each as its command, the interface and
  -- the new value in network byte order.
  pub real_notify_change-sent :
      (n new_ip new_netmask iface_index sent_bytes : ℕ) (s : S)
      → 12 ≤ n
      → (s' s'' : S) × (real_notify_change_of_ip_address socket n new_ip iface_index sent_bytes s
          ≡ success s' sent_bytes)
        × (real_notify_change_of_netmask socket n new_netmask iface_index sent_bytes s'
            ≡ success s'' sent_bytes)
        × (socket.outgoing s''
            ≡ (socket.outgoing s ++ change_bytes 2 iface_index new_ip)
              ++ change_bytes 3 iface_index new_netmask)
  unfolding real_notify_change_of_ip_address real_notify_change_of_netmask
  real_notify_change-sent n new_ip new_netmask iface_index sent_bytes s fuel =
      let (s', r, o) = notify-sent n 2 new_ip iface_index sent_bytes s fuel in
      let (s'', r', o') = notify-sent n 3 new_netmask iface_index sent_bytes s' fuel in
      (s', s'', r, r', o' ∙ ap (λ t. t ++ change_bytes 3 iface_index new_netmask) o)
