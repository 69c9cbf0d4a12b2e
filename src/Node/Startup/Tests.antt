-- ===== src/Node/Startup/Tests.antt =====
-- The custom information of a node with two servers.
use resilient_overlay_networ.Base.{ℕ, ◌≡◌, refl, List, [], ◌∷◌, ◌++◌, some, arith}
use resilient_overlay_networ.Base.Texts.{codes}
use resilient_overlay_networ.Address.{ip_into_uint}
use resilient_overlay_networ.Wire.{Mac}
use resilient_overlay_networ.Servers.{IpInfo}
use resilient_overlay_networ.Servers.Tests.{Fraction, fractions, two_servers}
use resilient_overlay_networ.Ports.{initial_ports}
use resilient_overlay_networ.Send.Tests.{mac, ifaces}
use resilient_overlay_networ.Node.{Node}
use resilient_overlay_networ.Node.Startup.{atoi, digits_value, initialize}
use resilient_overlay_networ.Node.Startup.Servers.{
  IsWord, words_text, started, ids, initialize-servers,
}

abbrev pub node : Node Fraction
node = record {
  table = two_servers;
  ifc = ifaces;
  mac_gateway = mac 8;
  ip_to_mac = [];
  ip_to_id = [];
  ports = initial_ports;
  sent_times = [];
}

abbrev pub read_mac : List ℕ → Mac
read_mac text = mac 7

abbrev pub servers : List (List ℕ)
servers = codes "10.0.0.1" ∷ codes "10.0.0.2" ∷ []

pub ip-IsWord : IsWord (codes "192.168.0.1")
ip-IsWord =
    (refl, (refl, (refl, (refl, (refl, (refl, (refl, (refl, (refl, (refl, (refl, tt)))))))))))

pub mac-IsWord : IsWord (codes "00:24:8C:01:79:06")
mac-IsWord = (
  refl,
  (
    refl,
    (
      refl,
      (
        refl,
        (
          refl,
          (
            refl,
            (
              refl,
              (refl, (refl, (refl, (refl, (refl, (refl, (refl, (refl, (refl, (refl, tt)))))))))),
            ),
          ),
        ),
      ),
    ),
  ),
)

pub number-IsWord : IsWord (codes "2")
number-IsWord = (refl, tt)

pub server-IsWord : IsWord (codes "10.0.0.1")
server-IsWord = (refl, (refl, (refl, (refl, (refl, (refl, (refl, (refl, tt))))))))

pub second_server-IsWord : IsWord (codes "10.0.0.2")
second_server-IsWord = (refl, (refl, (refl, (refl, (refl, (refl, (refl, (refl, tt))))))))

abbrev pub gateway : IpInfo
gateway = record { uint = ip_into_uint (codes "192.168.0.1"); str = codes "192.168.0.1" }

pub two : atoi (codes "2") ≡ some 2
unfolding atoi digits_value
two = refl

initialize-servers_example :
    initialize fractions read_mac
      (codes "192.168.0.1" ++ words_text (codes "00:24:8C:01:79:06" ∷ codes "2" ∷ servers))
      node
    ≡ some (record node {
      table = record {
        server_infoes = started fractions gateway servers two_servers.server_infoes;
        number_of_servers = 2;
        number_of_all_servers = 2;
        ip_gateway = gateway;
      };
      mac_gateway = mac 7;
      ip_to_id = ids 0 servers [];
    })
initialize-servers_example =
    initialize-servers fractions read_mac (codes "192.168.0.1") (codes "00:24:8C:01:79:06")
      (codes "2") servers node ip-IsWord mac-IsWord number-IsWord
      (server-IsWord, (second_server-IsWord, tt)) two (omega arith)
