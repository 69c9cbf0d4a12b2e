-- ===== src/Ports.antt =====
-- The port table of the address translation in user/sm.cpp: `src_port`, `port_to_ip` and
-- `my_port_to_src_port`, with the two places that take a port. The maps hold the fields of the
-- translated packet as they stood in it, in network byte order; their keys are uint16_t.
pub mod Lookup
mod Tests
use resilient_overlay_networ.Base.{
  ℕ, ◌+◌, ◌%◌, ◌^◌, List, [], ◌∷◌, Option, none, some, Bool, true, false, ◌==◌, ◌&&◌, ltb, leb,
  if◌then◌else◌,
}
use resilient_overlay_networ.Base.Maps.{find, insert}

pub record Ports : Type 0 where
  pub src_port : ℕ
  pub port_to_ip : List (ℕ × ℕ)
  pub my_port_to_src_port : List (ℕ × ℕ)

abbrev pub initial_ports : Ports
initial_ports = record { src_port = 8000; port_to_ip = []; my_port_to_src_port = [] }

-- The locked lines of `processFrame`, for a packet from the address and the port in these fields.
unfoldable pub take_for_nat : Ports → ℕ → ℕ → Ports
take_for_nat p ip_src port_src = record {
  port_to_ip = insert (p.src_port % 2 ^ 16) ip_src p.port_to_ip;
  my_port_to_src_port = insert (p.src_port % 2 ^ 16) port_src p.my_port_to_src_port;
  src_port = p.src_port + 1;
}

-- The locked lines of `send_udp_packet`.
unfoldable pub take_for_self : Ports → Ports
take_for_self p = record p { src_port = p.src_port + 1 }

abbrev pub or_zero : Option ℕ → ℕ
or_zero none = 0
or_zero (some v) = v

-- `map[key]` on a map of numbers, which answers 0 for a key that is missing.
abbrev pub value_at : ℕ → List (ℕ × ℕ) → ℕ
value_at k m = or_zero (find k m)

-- Whom a packet to `port` is for: nobody that is known, this node, or the holder of the address and
-- the port in these fields.
pub data Owner : Type 0 where
  nobody self : Owner
  client : ℕ → ℕ → Owner

abbrev pub owner_of : Option ℕ → ℕ → Owner
owner_of none port = self
owner_of (some ip) port = client ip port

unfoldable pub owner : Ports → ℕ → Owner
owner p port =
    if leb 8000 port && ltb port p.src_port
    then owner_of (find port p.port_to_ip) (value_at port p.my_port_to_src_port)
    else nobody
