-- ===== src/Node/Halves.antt =====
-- `send_udp_packet` in two steps, as the thread of `run` takes it while frames arrive in another: what
-- it does up to `sendFrame`, its port taken under the mutex, and the time that it notes behind that.
use resilient_overlay_networ.Base.{
  ℕ, ◌+◌, ◌-◌, ◌%◌, ◌^◌, ◌≡◌, refl, List, [], ◌∷◌, Option, none, some, Bool, ◌==◌, ◌>>=◌, arith,
}
use resilient_overlay_networ.Base.Maps.{insert}
use resilient_overlay_networ.Wire.{Mac, Ip}
use resilient_overlay_networ.Send.{Sent, udp_packet}
use resilient_overlay_networ.Ports.{take_for_self}
use resilient_overlay_networ.Node.{Node}
use resilient_overlay_networ.Node.Commands.{hop_mac, send_udp_packet}

module _ {R : Type 0} where
  unfoldable pub send_udp_frame : Node R → Ip → ℕ → ℕ → Bool → Option (Node R × List Sent)
  send_udp_frame n raw ip_dst next_hop is_dsa = do
    mac ← hop_mac n next_hop
    sent ←
        udp_packet n.ifc mac raw ip_dst n.ports.src_port is_dsa
          (next_hop == n.table.ip_gateway.uint)
    some (record n { ports = take_for_self n.ports }, sent ∷ [])

  -- `src_port` is read again, without the mutex.
  unfoldable pub note_time : Node R → ℕ → Node R
  note_time n now = record n {
    sent_times = insert ((n.ports.src_port - 1) % 2 ^ 16) now n.sent_times;
  }

  abbrev noting : ℕ → Node R × List Sent → Option (Node R × List Sent)
  noting now (v, sents) = some (note_time v now, sents)

  abbrev leaving : Node R → Sent → Option (Node R × List Sent)
  leaving v sent = some (v, sent ∷ [])

  note_last :
      (v : Node R) (now : ℕ) (o : Option Sent)
      → (o >>= leaving v >>= noting now) ≡ (o >>= leaving (note_time v now))
  note_last v now none = refl
  note_last v now (some s) = refl

  note_after :
      (v : Node R) (now : ℕ) (o : Option Mac) (f : Mac → Option Sent)
      → (o >>= (λ mac. f mac >>= leaving v) >>= noting now)
        ≡ (o >>= λ mac. f mac >>= leaving (note_time v now))
  note_after v now none f = refl
  note_after v now (some mac) f = note_last v now (f mac)

  note_time-taken :
      (n : Node R) (now : ℕ)
      → note_time (record n { ports = take_for_self n.ports }) now ≡ record n {
        ports = take_for_self n.ports;
        sent_times = insert (n.ports.src_port % 2 ^ 16) now n.sent_times;
      }
  unfolding note_time take_for_self
  note_time-taken n now =
      let same : n.ports.src_port + 1 - 1 ≡ n.ports.src_port = omega arith in rw same refl

  -- Without anything in between, both steps are the function as it is run alone.
  send_udp_frame-note_time :
      (n : Node R) (raw : Ip) (now ip_dst hop : ℕ) (is_dsa : Bool)
      → (send_udp_frame n raw ip_dst hop is_dsa >>= noting now)
        ≡ send_udp_packet n raw now ip_dst hop is_dsa
  unfolding send_udp_frame send_udp_packet
  send_udp_frame-note_time n raw now ip_dst hop is_dsa = rw (← note_time-taken n now) (
      note_after (record n { ports = take_for_self n.ports }) now (hop_mac n hop)
        (λ mac.
          udp_packet n.ifc mac raw ip_dst n.ports.src_port is_dsa (hop == n.table.ip_gateway.uint)))

  pub send_udp_frame-sends :
      (n : Node R) (raw : Ip) (ip_dst hop : ℕ) (is_dsa : Bool) (mac : Mac) (sent : Sent)
      → hop_mac n hop ≡ some mac
      → udp_packet n.ifc mac raw ip_dst n.ports.src_port is_dsa (hop == n.table.ip_gateway.uint)
        ≡ some sent
      → send_udp_frame n raw ip_dst hop is_dsa
        ≡ some (record n { ports = take_for_self n.ports }, sent ∷ [])
  unfolding send_udp_frame
  send_udp_frame-sends n raw ip_dst hop is_dsa mac sent known made = rw (known, made) refl
