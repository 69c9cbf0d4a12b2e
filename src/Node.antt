-- ===== src/Node.antt =====
-- The simulated machine of user/sm.cpp: its state, `processFrame`, and the commands of `run`. A step
-- returns the new state and the frames that it sends; `none` is a fault: a read or a write outside of
-- memory, or through a null pointer. What `run` prints is in Node/Console.
pub mod Translate
pub mod Commands
pub mod Console
pub mod Halves
pub mod Forward
pub mod Replies
pub mod Hops
pub mod Startup
pub mod Moves
pub mod Runs
pub mod Tests
use resilient_overlay_networ.Base.{
  ℕ, ◌+◌, ◌-◌, ◌%◌, ◌^◌, List, [], ◌∷◌, Option, none, some, Bool, true, false, ◌==◌, ◌||◌, ltb,
  if◌then◌else◌, ◌>>=◌, take,
}
use resilient_overlay_networ.Base.Maps.{find, insert}
use resilient_overlay_networ.Wire.{Mac, EthernetHdr, Ip, Udp, Icmp, Frame, Ifaces, udp_size}
use resilient_overlay_networ.Wire.Order.{ntohs, ntohl}
use resilient_overlay_networ.Wire.Overlay.{take_eth, take_ip, take_udp, take_icmp}
use resilient_overlay_networ.Filter.{is_valid_packet}
use resilient_overlay_networ.Send.{Sent}
use resilient_overlay_networ.Servers.{Rates, Table}
use resilient_overlay_networ.Servers.Ping.{receive_ping_packet}
use resilient_overlay_networ.Adverts.{receive_advertise_entries}
use resilient_overlay_networ.Ports.{Ports, Owner, nobody, self, client, owner}
use Translate.{translate_out, translate_in}

pub record Node (R : Type 0) : Type 0 where
  pub table : Table R
  pub ifc : Ifaces
  pub mac_gateway : Mac
  pub ip_to_mac : List (ℕ × Mac)
  pub ip_to_id : List (ℕ × ℕ)
  pub ports : Ports
  pub sent_times : List (ℕ × ℕ)

abbrev pub touch_of : Option ℕ → ℕ → List (ℕ × ℕ) → List (ℕ × ℕ)
touch_of none k m = insert k 0 m
touch_of (some v) k m = m

-- `sent_times[port]` makes an entry where there is none.
abbrev pub touch : ℕ → List (ℕ × ℕ) → List (ℕ × ℕ)
touch k m = touch_of (find k m) k m

module _ {R : Type 0} where
  -- A packet of the overlay, to be passed on to the gateway from a port of this node's own.
  unfoldable pub forward_out :
      Node R → EthernetHdr → Ip → Udp → List ℕ → ℕ → Option (Node R × List Sent)
  forward_out n eth ip udp payload length = do
    (ports, sent) ← translate_out n.ifc n.mac_gateway n.ports eth ip udp payload length
    some (record n { ports = ports }, sent ∷ [])

  -- A packet to one of the ports that were given out.
  unfoldable pub receive_reply :
      Node R → Owner → EthernetHdr → Ip → Udp → List ℕ → ℕ → Option (Node R × List Sent)
  receive_reply n nobody eth ip udp payload length = some (n, [])
  receive_reply n self eth ip udp payload length =
      some (record n { sent_times = touch (ntohs udp.port_dst) n.sent_times }, [])
  receive_reply n (client main_ip main_port) eth ip udp payload length = do
    mac ← find (ntohl main_ip) n.ip_to_mac
    sent ← translate_in n.ifc mac main_ip main_port eth ip udp payload length
    some (n, sent ∷ [])

module _ {R : Type 0} (r : Rates R) where
  -- An advertisement: its entries, then the sender's MAC address.
  unfoldable pub receive_advertise_data : Node R → List ℕ → ℕ → ℕ → Mac → Option (Node R)
  receive_advertise_data n advertise_data advertise_size ip_src mac_shost = do
    table ← receive_advertise_entries r advertise_data advertise_size ip_src n.table
    some (record n { table = table; ip_to_mac = insert ip_src mac_shost n.ip_to_mac })

  unfoldable pub process_udp :
      Node R → EthernetHdr → Ip → Udp → List ℕ → ℕ → Option (Node R × List Sent)
  process_udp n eth ip udp payload length =
      let port = ntohs udp.port_dst in
      if port == 5000
      then (do
        n' ← receive_advertise_data n payload (length - udp_size) (ntohl ip.ip_src) eth.ether_shost
        some (n', []))
      else if port == 1000 || port == 2000
      then forward_out n eth ip udp payload length
      else receive_reply n (owner n.ports port) eth ip udp payload length

  unfoldable pub process_ping : Node R → Ip → List ℕ → ℕ → Option (Node R × List Sent)
  process_ping n ip m now = do
    (icmp, rest) ← take_icmp m
    table ← receive_ping_packet r (ntohl ip.ip_src) now (ntohs icmp.sequence_id) n.table
    some (record n { table = table }, [])

  unfoldable pub process_ip :
      Node R → EthernetHdr → Ip → List ℕ → ℕ → ℕ → Option (Node R × List Sent)
  process_ip n eth ip m length now =
      if ip.ip_p == 1
      then process_ping n ip m now
      else if ip.ip_p == 17
      then (take_udp m >>= λ (udp, payload). process_udp n eth ip udp payload length)
      else some (n, [])

  -- What follows the filter. The frame is copied first, as long as it says that it is.
  unfoldable pub dispatch : Node R → Frame → ℕ → Option (Node R × List Sent)
  dispatch n frame now = do
    (eth, m₁) ← take_eth (take frame.length frame.bytes)
    (ip, m₂) ← take_ip m₁
    process_ip n eth ip m₂ frame.length now

  unfoldable pub process_frame : Node R → Frame → ℕ → Option (Node R × List Sent)
  process_frame n frame now = do
    valid ← is_valid_packet frame
    if valid then dispatch n frame now else some (n, [])
