-- ===== src/Ports/Tests.antt =====
-- Ports that were taken, then looked up.
use resilient_overlay_networ.Base.{◌≡◌, arith}
use resilient_overlay_networ.Ports.{
  Ports, initial_ports, take_for_nat, take_for_self, owner, client,
}
use resilient_overlay_networ.Ports.Lookup.{here, next, for_nat, for_self, owner-nat}

abbrev first_taken : Ports
first_taken = take_for_nat initial_ports 1 2

abbrev second_taken : Ports
second_taken = take_for_nat first_taken 0x0100000a 0x1234

abbrev third_taken : Ports
third_taken = take_for_self second_taken

owner-nat_example : owner third_taken first_taken.src_port ≡ client 0x0100000a 0x1234
unfolding take_for_nat take_for_self
owner-nat_example =
    owner-nat 0x0100000a 0x1234 (next here (for_nat 1 2)) (next here for_self) (omega arith)
