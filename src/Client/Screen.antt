-- ===== src/Client/Screen.antt =====
-- What the client prints of its arguments and of the machine: `printArguments` of
-- base/cf.cpp, `printInterfacesInformation` of base/machine.cpp and `printInterfaceInformation` of
-- base/interface.cpp. A text is the list of its bytes; 10 ends a line.
pub mod Read
mod Tests
use resilient_overlay_networ.Base.{
  ℕ, zero, suc, ◌+◌, ◌-◌, ◌*◌, ◌/◌, ◌%◌, ◌^◌, List, [], ◌∷◌, ◌++◌, Option, none, some, ltb,
  if◌then◌else◌, ◌>>=◌, set, true, false, ◌==◌, length,
}
use resilient_overlay_networ.Base.Texts.{codes, c_text}
use resilient_overlay_networ.Base.Shown.{shown}
use resilient_overlay_networ.Wire.{Mac}
use resilient_overlay_networ.Client.Arguments.{Settings}
use resilient_overlay_networ.Client.Machine.{Interface, Machine}

abbrev pub line : List ℕ → List ℕ
line text = text ++ 10 ∷ []

abbrev pub double_rule : List ℕ
double_rule = codes "=========================================="

-- `(ip >> 24) << "." << ((ip >> 16) & 0xFF) << "." << ((ip >> 8) & 0xFF) << "." << (ip & 0xFF)`
unfoldable pub print_ip : ℕ → List ℕ
unfolding shown
print_ip ip =
    shown (ip / 2 ^ 24)
    ++ b'.'
      ∷ (shown (ip / 2 ^ 16 % 256) ++ b'.' ∷ (shown (ip / 2 ^ 8 % 256) ++ b'.' ∷ shown (ip % 256)))

-- `TO_HEX`
unfoldable pub to_hex : ℕ → ℕ
to_hex dec_num = if ltb dec_num 10 then dec_num + b'0' else dec_num - 10 + b'A'

-- The loop over the bytes of the address, which fills `str` by three characters for each.
unfoldable pub mac_loop : List ℕ → List ℕ
mac_loop [] = []
mac_loop (b ∷ mac) = to_hex (b / 16 % 16) ∷ to_hex (b % 16) ∷ b':' ∷ mac_loop mac

abbrev pub mac_bytes : Mac → List ℕ
mac_bytes mac = mac.b0 ∷ mac.b1 ∷ mac.b2 ∷ mac.b3 ∷ mac.b4 ∷ mac.b5 ∷ []

-- `str` is printed up to its NUL, which takes the place of the last colon.
unfoldable pub print_mac : Mac → Option (List ℕ)
unfolding mac_loop
print_mac mac = c_text (set (mac_loop (mac_bytes mac)) (3 * 5 + 2) 0)

unfoldable pub print_interface_information : Interface → Option (List ℕ)
print_interface_information i = do
  str ← print_mac i.mac
  some (
      line (codes "-- Type: Ethernet interface")
      ++ (line (codes "-- MAC address: " ++ str)
          ++ (line (codes "-- IP address: " ++ print_ip i.ip)
              ++ line (codes "-- Network mask: " ++ print_ip i.mask))))

-- The loop from interface `i` on.
unfoldable pub interfaces_loop : ℕ → List Interface → Option (List ℕ)
unfolding shown
interfaces_loop i [] = some []
interfaces_loop i (x ∷ xs) = do
  text ← print_interface_information x
  rest ← interfaces_loop (suc i) xs
  some (
      (if i == 0 then [] else line (codes "---------------------"))
      ++ (line (codes "Interface " ++ (shown i ++ codes ":")) ++ (text ++ rest)))

unfoldable pub print_interfaces_information : Machine → Option (List ℕ)
print_interfaces_information m = do
  text ← interfaces_loop 0 m.iface
  some (line double_rule ++ (text ++ line double_rule))

-- The last lines of `doInformationSynchronizationNegotiations`.
unfoldable pub print_machine : Machine → Option (List ℕ)
print_machine m = do
  interfaces ← print_interfaces_information m
  some (
      interfaces
      ++ ((if length m.custom_info == 0
            then line (codes "There is no custom information for this machine.")
            else line (codes "Custom information for this machine are:") ++ line m.custom_info)
          ++ line double_rule))

-- Behind the five lines of the banner.
unfoldable pub print_arguments : Settings → List ℕ
unfolding shown
print_arguments settings =
    line double_rule
    ++ (line (codes "Server ip: " ++ print_ip settings.ip)
        ++ (line (codes "Server port: " ++ shown settings.port)
            ++ (line (codes "Map name: " ++ settings.map_name)
                ++ ((if length settings.node_name == 0
                      then line (codes "Node name not specified.")
                      else line (codes "Node name: " ++ settings.node_name))
                    ++ line double_rule))))
