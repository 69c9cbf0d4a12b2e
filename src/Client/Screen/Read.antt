-- ===== src/Client/Screen/Read.antt =====
-- What is printed of an interface can be read back.
use resilient_overlay_networ.Base.{
  ℕ, ◌+◌, ◌-◌, ◌*◌, ◌/◌, ◌%◌, ◌^◌, ◌<◌, ◌≡◌, ◌≢◌, refl, ap, List, [], ◌∷◌, ◌++◌, Option, none, some,
  ◌&&◌, leb, ◌==◌, if◌then◌else◌, ◌>>=◌, arith, All,
}
use resilient_overlay_networ.Base.Texts.{codes, IsText, c_text_self}
use resilient_overlay_networ.Base.Shown.{shown}
use resilient_overlay_networ.Wire.{Mac}
use resilient_overlay_networ.Address.Parse.{decimal}
use resilient_overlay_networ.Address.Print.{dotted}
use resilient_overlay_networ.Client.Args.Printed.{parse_ip-dotted}
use resilient_overlay_networ.Client.Args.{parse_ip}
use resilient_overlay_networ.Client.Machine.{Interface}
use resilient_overlay_networ.Client.Screen.{
  line, print_ip, to_hex, mac_bytes, print_mac, print_interface_information,
}

shown-decimal : (b : ℕ) → b < 256 → shown b ≡ decimal b
unfolding shown
shown-decimal b h = ground arith

-- A hexadecimal digit in capital letters.
unfoldable pub hex_digit : ℕ → Option ℕ
hex_digit c =
    if leb b'0' c && leb c b'9'
    then some (c - b'0')
    else if leb b'A' c && leb c b'F'
    then some (c - b'A' + 10)
    else none

hex_digit-to_hex : (d : ℕ) → d < 16 → hex_digit (to_hex d) ≡ some d
unfolding hex_digit to_hex
hex_digit-to_hex d h = ground arith

to_hex-ne-zero : (d : ℕ) → to_hex d ≢ 0
unfolding to_hex
to_hex-ne-zero d e = ground arith

-- Six pairs of digits between colons, read as the bytes that they stand for.
unfoldable pub hex_byte : ℕ → ℕ → Option ℕ
unfolding hex_digit
hex_byte hi lo = hex_digit hi >>= λ a. hex_digit lo >>= λ b. some (a * 16 + b)

unfoldable pub mac_value : List ℕ → Option (List ℕ)
unfolding hex_byte
mac_value [] = none
mac_value (hi ∷ []) = none
mac_value (hi ∷ lo ∷ []) = hex_byte hi lo >>= λ b. some (b ∷ [])
mac_value (hi ∷ lo ∷ c ∷ rest) =
    let later = mac_value rest in
    hex_byte hi lo >>= λ b. if c == b':' then (later >>= λ bs. some (b ∷ bs)) else none

abbrev pair : ℕ → List ℕ → List ℕ
pair b rest = to_hex (b / 16 % 16) ∷ to_hex (b % 16) ∷ rest

abbrev mac_text : Mac → List ℕ
mac_text m = pair m.b0 (
    b':' ∷ pair m.b1 (b':' ∷ pair m.b2 (b':' ∷ pair m.b3 (b':' ∷ pair m.b4 (b':' ∷ pair m.b5 [])))))

hex_byte-pair : (b : ℕ) → b < 256 → hex_byte (to_hex (b / 16 % 16)) (to_hex (b % 16)) ≡ some b
unfolding hex_byte
hex_byte-pair b h =
    rw (hex_digit-to_hex (b / 16 % 16) (omega arith), hex_digit-to_hex (b % 16) (omega arith))
      (ap some (omega arith))

mac_value-pair :
    (b : ℕ) (rest : List ℕ)
    → b < 256
    → mac_value (pair b (b':' ∷ rest)) ≡ (mac_value rest >>= λ bs. some (b ∷ bs))
unfolding mac_value
mac_value-pair b rest h = rw (hex_byte-pair b h) refl

mac_value-last : (b : ℕ) → b < 256 → mac_value (pair b []) ≡ some (b ∷ [])
unfolding mac_value
mac_value-last b h = rw (hex_byte-pair b h) refl

pair-IsText : (b : ℕ) (rest : List ℕ) → IsText rest → IsText (pair b rest)
pair-IsText b rest h = (to_hex-ne-zero (b / 16 % 16), (to_hex-ne-zero (b % 16), h))

pairs-IsText : (b : ℕ) (rest : List ℕ) → IsText rest → IsText (pair b (b':' ∷ rest))
pairs-IsText b rest h = pair-IsText b (b':' ∷ rest) ((λ z. absurd (omega arith)), h)

mac_text-IsText : (m : Mac) → IsText (mac_text m)
mac_text-IsText m =
    let last = pair m.b5 [] in
    let t4 = pair m.b4 (b':' ∷ last) in
    let t3 = pair m.b3 (b':' ∷ t4) in
    let t2 = pair m.b2 (b':' ∷ t3) in
    let t1 = pair m.b1 (b':' ∷ t2) in
    pairs-IsText m.b0 t1 (
      pairs-IsText m.b1 t2 (
        pairs-IsText m.b2 t3
          (pairs-IsText m.b3 t4 (pairs-IsText m.b4 last (pair-IsText m.b5 [] tt)))))

-- The last colon is written over by the NUL.
print_mac-mac_text : (m : Mac) → print_mac m ≡ some (mac_text m)
unfolding print_mac
print_mac-mac_text m = c_text_self (mac_text m) [] (mac_text-IsText m)

mac_value-mac_text :
    (m : Mac) → All (λ b. b < 256) (mac_bytes m) → mac_value (mac_text m) ≡ some (mac_bytes m)
mac_value-mac_text m (h0, (h1, (h2, (h3, (h4, (h5, t)))))) =
    rw
      (
        mac_value-pair m.b0 _ h0,
        mac_value-pair m.b1 _ h1,
        mac_value-pair m.b2 _ h2,
        mac_value-pair m.b3 _ h3,
        mac_value-pair m.b4 _ h4,
        mac_value-last m.b5 h5,
      )
      refl

print_ip-dotted : (ip : ℕ) → ip < 2 ^ 32 → print_ip ip ≡ dotted ip
unfolding print_ip
print_ip-dotted ip h =
    let top : ip / 2 ^ 24 % 256 ≡ ip / 2 ^ 24 = omega arith in
    rw
      (
        top,
        shown-decimal (ip / 2 ^ 24) (omega arith),
        shown-decimal (ip / 2 ^ 16 % 256) (omega arith),
        shown-decimal (ip / 2 ^ 8 % 256) (omega arith),
        shown-decimal (ip % 256) (omega arith),
      )
      refl

-- An interface with six bytes of MAC address and with uint32_t numbers is printed in four lines, its
-- kind, its MAC address, its address and its mask. The MAC address is read back as its bytes by pairs of
-- hexadecimal digits between colons, and `parseIP` reads the other two back as the same numbers.
pub print_interface_information-read :
    (i : Interface)
    → All (λ b. b < 256) (mac_bytes i.mac)
    → i.ip < 2 ^ 32
    → i.mask < 2 ^ 32
    → (mac ip mask : List ℕ) × (print_interface_information i
        ≡ some (
            line (codes "-- Type: Ethernet interface")
            ++ (line (codes "-- MAC address: " ++ mac)
                ++ (line (codes "-- IP address: " ++ ip)
                    ++ line (codes "-- Network mask: " ++ mask)))))
      × (mac_value mac ≡ some (mac_bytes i.mac))
      × (parse_ip ip ≡ some i.ip)
      × (parse_ip mask ≡ some i.mask)
unfolding print_interface_information
print_interface_information-read i bytes ip mask = (
  mac_text i.mac,
  dotted i.ip,
  dotted i.mask,
  rw (print_mac-mac_text i.mac, print_ip-dotted i.ip ip, print_ip-dotted i.mask mask) refl,
  mac_value-mac_text i.mac bytes,
  parse_ip-dotted i.ip ip,
  parse_ip-dotted i.mask mask,
)
