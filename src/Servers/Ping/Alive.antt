-- ===== src/Servers/Ping/Alive.antt =====
-- When a server is taken for down.
use resilient_overlay_networ.Base.{ℕ, List, [], ◌∷◌}
use resilient_overlay_networ.Servers.{IpInfo, ServerInformation, Rates}
use resilient_overlay_networ.Servers.Ping.{update_server_information, check_entry}

module _ {R : Type 0} (r : Rates R) (gateway : IpInfo) where
  -- What one `ping` command does to a server whose last ping was not answered: the check, then the
  -- next echo request.
  round : ℕ → ServerInformation R → ServerInformation R
  round now s = update_server_information r gateway now (check_entry r s)

  unfoldable pub missed : List ℕ → ServerInformation R → ServerInformation R
  unfolding round
  missed [] s = s
  missed (now ∷ times) s = missed times (round now s)
