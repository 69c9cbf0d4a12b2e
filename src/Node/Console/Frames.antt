-- ===== src/Node/Console/Frames.antt =====
-- The lines that `processFrame` prints of the DSA and LSA packets that it passes on and gets.
use resilient_overlay_networ.Base.{
  ℕ, ◌++◌, List, [], Option, some, Bool, true, false, ◌==◌, ◌||◌, if◌then◌else◌, ◌>>=◌,
}
use resilient_overlay_networ.Base.Texts.{codes}
use resilient_overlay_networ.Base.Shown.{shown}
use resilient_overlay_networ.Address.{ip_uint_into_str}
use resilient_overlay_networ.Wire.{Ip, Udp}
use resilient_overlay_networ.Wire.Order.{ntohs, ntohl}
use resilient_overlay_networ.Servers.{elapsed_ms}
use resilient_overlay_networ.Ports.{Owner, nobody, self, client, owner, value_at}
use resilient_overlay_networ.Node.{Node}
use resilient_overlay_networ.Node.Console.{endl}

abbrev pub kind : Bool → List ℕ
kind is_dsa = if is_dsa then codes "DSA" else codes "LSA"

-- The text for a DSA packet, for an LSA packet, or none, by the port 1000 or 2000.
abbrev pub by_port : ℕ → (Bool → Option (List ℕ)) → Option (List ℕ)
by_port port text = if port == 1000 then text true else if port == 2000 then text false else some []

abbrev pub reply_text : Bool → ℕ → ℕ → List ℕ
reply_text is_dsa port time =
    kind is_dsa
    ++ (codes " packet "
        ++ (shown port ++ (codes " reply received in " ++ (shown time ++ endl (codes "ms")))))

unfoldable pub forward_line : Ip → ℕ → Option (List ℕ)
unfolding ip_uint_into_str
forward_line ip port = by_port port (λ is_dsa. ip_uint_into_str (ntohl ip.ip_dst) >>= λ text.
    some (kind is_dsa ++ (codes " packet forwarded to " ++ endl text)))

module _ {R : Type 0} where
  -- The time since the packet was sent from the port, as `sent_times` has it.
  unfoldable pub reply_line : Node R → Owner → Ip → Udp → ℕ → Option (List ℕ)
  unfolding ip_uint_into_str shown
  reply_line n nobody ip udp now = some []
  reply_line n self ip udp now =
      let port_dst = ntohs udp.port_dst in
      let time = elapsed_ms now (value_at port_dst n.sent_times) in
      by_port (ntohs udp.port_src) (λ is_dsa. some (reply_text is_dsa port_dst time))
  reply_line n (client main_ip main_port) ip udp now = by_port (ntohs udp.port_src) (λ is_dsa.
      ip_uint_into_str (ntohl ip.ip_src) >>= λ text.
      some (kind is_dsa ++ (codes " forwarded packet reply received from " ++ endl text)))

  -- Of a frame that carries UDP.
  unfoldable pub print_udp : Node R → Ip → Udp → ℕ → Option (List ℕ)
  unfolding forward_line reply_line
  print_udp n ip udp now =
      let port = ntohs udp.port_dst in
      if port == 5000
      then some []
      else if port == 1000 || port == 2000
      then forward_line ip port
      else reply_line n (owner n.ports port) ip udp now
