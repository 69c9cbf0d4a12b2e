-- ===== src/Client/Screen/Tests.antt =====
-- What is printed of an interface and of the arguments.
use resilient_overlay_networ.Base.{[], ◌≡◌, refl, ◌++◌, some}
use resilient_overlay_networ.Base.Texts.{codes, c_text}
use resilient_overlay_networ.Base.Shown.{shown}
use resilient_overlay_networ.Client.Machine.{Interface}
use resilient_overlay_networ.Client.Screen.{
  line, double_rule, print_machine, print_interfaces_information, interfaces_loop, to_hex, print_ip,
  print_mac, print_interface_information,
}

abbrev lan : Interface
lan = record {
  mac = record { b0 = 0; b1 = 0x1a; b2 = 2; b3 = 3; b4 = 0xf0; b5 = 255 };
  index = 0;
  ip = 0x0000_0a05;
  mask = 0xffff_ff00;
}

lan_printed :
    print_interface_information lan
    ≡ some (
        line (codes "-- Type: Ethernet interface")
        ++ (line (codes "-- MAC address: 00:1A:02:03:F0:FF")
            ++ (line (codes "-- IP address: 0.0.10.5")
                ++ line (codes "-- Network mask: 255.255.255.0"))))
unfolding print_interface_information print_ip print_mac to_hex c_text shown
lan_printed = refl

bare_printed :
    print_machine (record { iface = []; custom_info = codes "GPU" })
    ≡ some (
        line double_rule
        ++ (line double_rule
            ++ (line (codes "Custom information for this machine are:")
                ++ (line (codes "GPU") ++ line double_rule))))
unfolding print_machine print_interfaces_information interfaces_loop
bare_printed = refl
