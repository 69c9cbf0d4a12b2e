-- ===== src/Client/Machine/Tests.antt =====
-- An interface that gets a new address, then a mask, then the same address again.
use resilient_overlay_networ.Base.{◌≡◌, List, [], ◌∷◌, ◌++◌, some, arith}
use resilient_overlay_networ.Client.Slow.{Line, slow, slow-Delivers}
use resilient_overlay_networ.Client.Machine.{Interface, blank_interface}
use resilient_overlay_networ.Client.Machine.Told.{
  Call, ip_to, mask_to, told_bytes, replay, calls, calls-replay,
}

abbrev made : List Call
made = ip_to 0x0a00_0001 ∷ mask_to 0xff00_0000 ∷ ip_to 0x0a00_0001 ∷ []

calls-replay_example :
    (i' : Interface) × (s' : Line) × (told : List Call) × (calls slow 12 made blank_interface
        ([], [])
      ≡ some (i', s'))
    × (slow.outgoing s' ≡ [] ++ told_bytes 0 told)
    × (replay told (0, 0) ≡ (i'.ip, i'.mask))
calls-replay_example =
    calls-replay slow slow-Delivers 12 made blank_interface ([], []) (omega arith)
