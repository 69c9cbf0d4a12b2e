-- ===== src/Client/Negotiation/Information.antt =====
-- The interfaces that the server describes, and the custom information.
use resilient_overlay_networ.Base.{
  ℕ, ◌+◌, ◌-◌, ◌^◌, ◌≤◌, ◌<◌, ◌≡◌, refl, ap, sym, ◌∙◌, List, [], ◌∷◌, ◌++◌, some, Bool, true, false,
  if◌then◌else◌, length, drop, get_elem?-behind, arith, length-append, length-drop, le→ltb,
}
use mathlib.Core.List.{append_assoc, append-nil}
use resilient_overlay_networ.Base.Texts.{same_text}
use resilient_overlay_networ.Wire.{Mac, mac_bytes}
use resilient_overlay_networ.Wire.Network.{be16, be32}
use resilient_overlay_networ.Client.Transfer.{Socket}
use resilient_overlay_networ.Client.Transfer.Complete.{Delivers}
use resilient_overlay_networ.Client.Transfer.Streams.{Separate}
use resilient_overlay_networ.Client.Machine.{Interface, Machine, init_interface}
use resilient_overlay_networ.Client.Session.{Session, done, word16, word32, receive_buffer}
use resilient_overlay_networ.Client.Session.Steps.{at, receive_buffer-front}
use resilient_overlay_networ.Client.Negotiation.{
  ethernet_interface, ethernet_physical_interface, is_known, read_mac, read_interface_information,
}
use resilient_overlay_networ.Client.Negotiation.Reading.{Leaves, word16-at, word32-at}

-- An interface as the server describes it: its type, bytes that are not read, the MAC address in eight
-- bytes, and the address and mask.
pub record Described : Type 0 where
  pub is_physical : Bool
  pub unread : List ℕ
  pub mac : Mac
  pub b6 : ℕ
  pub b7 : ℕ
  pub ip : ℕ
  pub mask : ℕ

abbrev pub type_name : Bool → List ℕ
type_name physical = if physical then ethernet_physical_interface else ethernet_interface

abbrev pub name_part : Described → List ℕ
name_part d = type_name d.is_physical ++ 0 ∷ d.unread

abbrev pub body : Described → List ℕ
body d = name_part d ++ mac_bytes d.mac (d.b6 ∷ (d.b7 ∷ (be32 d.ip ++ be32 d.mask)))

abbrev pub description : Described → List ℕ
description d = be16 (length (body d)) ++ body d

-- The description fits into the buffer, and the numbers are 32-bit words.
pub record Fits (d : Described) : Type 0 where
  pub in_buffer : length (body d) ≤ 1524
  pub ip_lt : d.ip < 2 ^ 32
  pub mask_lt : d.mask < 2 ^ 32

move : (k i : ℕ) → k + 0 + i ≡ k + i
move k i = omega arith

read_mac-behind :
    (front rest : List ℕ) (mac : Mac) (b6 b7 pos : ℕ)
    → pos ≡ length front
    → read_mac pos (front ++ mac_bytes mac (b6 ∷ (b7 ∷ rest))) ≡ some mac
unfolding read_mac
read_mac-behind front rest mac b6 b7 pos p =
    let m = mac_bytes mac (b6 ∷ (b7 ∷ rest)) in
    let at_byte = λ (i : ℕ). get_elem?-behind front m i in
    let start : pos ≡ length front + 0 = omega arith in
    let k = length front in
    rw (start, at_byte 0)
      (rw
        (
          move k 1,
          move k 2,
          move k 3,
          move k 4,
          move k 5,
          move k 6,
          move k 7,
          at_byte 1,
          at_byte 2,
          at_byte 3,
          at_byte 4,
          at_byte 5,
          at_byte 6,
          at_byte 7,
        )
        refl)

is_known-type :
    (physical : Bool) (rest : List ℕ) → is_known (type_name physical ++ 0 ∷ rest) ≡ some true
unfolding is_known same_text
is_known-type true rest = refl
is_known-type false rest = refl

-- The numbers of the interface stand 16, 8 and 4 bytes before the end of the description.
length-body : (d : Described) → length (body d) ≡ length (name_part d) + 16
length-body d = omega (
  arith,
  length-append (name_part d) (mac_bytes d.mac (d.b6 ∷ (d.b7 ∷ (be32 d.ip ++ be32 d.mask)))),
)

-- The interface that the machine keeps.
abbrev pub interface : ℕ → Described → Interface
interface index d = record { mac = d.mac; index = index; ip = d.ip; mask = d.mask }

module _ {S : Type 0} (socket : Socket S) where
  interface_steps :
      (n index : ℕ) (m : Machine) (d : Described) (s s1 s2 : Session S)
      → length (body d) ≤ 1524
      → 16 ≤ length (body d)
      → receive_buffer socket n 17 2 s ≡ done s1
      → word16 0 s1 ≡ done (length (body d))
      → receive_buffer socket n 19 (length (body d)) s1 ≡ done s2
      → is_known s2.buffer ≡ some true
      → read_mac (length (body d) - 16) s2.buffer ≡ some d.mac
      → word32 (length (body d) - 8) s2 ≡ done d.ip
      → word32 (length (body d) - 4) s2 ≡ done d.mask
      → read_interface_information socket n m index s
        ≡ done (init_interface m index d.mac d.ip d.mask, s2)
  unfolding read_interface_information
  interface_steps n index m d s s1 s2 hi lo e1 e2 e3 e4 e5 e6 e7 =
      rw
        (
          e1,
          e2,
          le→ltb 1524 (length (body d)) hi,
          e3,
          e4,
          le→ltb (length (body d)) 16 lo,
          e5,
          e6,
          e7,
        )
        refl

module _ {S : Type 0} (socket : Socket S) (laws : Delivers socket) (apart : Separate socket) where
  pub read_interface-described :
      (n index : ℕ) (m : Machine) (d : Described) (rest : List ℕ) (s : Session S)
      → 1524 ≤ n
      → Fits d
      → length s.buffer ≡ 1524
      → socket.incoming s.sfd ≡ description d ++ rest
      → (s' : Session S) × (read_interface_information socket n m index s
          ≡ done (init_interface m index d.mac d.ip d.mask, s'))
        × Leaves socket s s' [] rest
  read_interface-described n index m d rest s fuel fits full e =
      let size = length (body d) in
      let long = length-body d in
      let (sfd1, r1, i1, o1) =
        receive_buffer-front socket laws apart n 17 2 s (be16 size) (body d ++ rest) refl
          (omega arith) (omega arith) (omega arith) e in
      let behind1 = drop 2 s.buffer in
      let s1 = at sfd1 (be16 size) behind1 in
      let full1 : length (be16 size ++ behind1) ≡ 1524 = omega (arith, length-drop 2 s.buffer) in
      let (sfd2, r2, i2, o2) =
        receive_buffer-front socket laws apart n 19 size s1 (body d) rest refl (omega arith)
          (omega (arith, fits.in_buffer)) (omega (arith, fits.in_buffer)) i1 in
      let behind2 = drop size (be16 size ++ behind1) in
      let s2 = at sfd2 (body d) behind2 in
      let name = name_part d in
      let words = be32 d.ip ++ be32 d.mask in
      let eight = mac_bytes d.mac (d.b6 ∷ (d.b7 ∷ [])) in
      let split_mac : body d ++ behind2
          ≡ name ++ mac_bytes d.mac (d.b6 ∷ (d.b7 ∷ (words ++ behind2))) =
        append_assoc name (mac_bytes d.mac (d.b6 ∷ (d.b7 ∷ words))) behind2 in
      let split_ip : body d ++ behind2
          ≡ (name ++ eight) ++ (be32 d.ip ++ (be32 d.mask ++ behind2)) =
        split_mac ∙ sym (append_assoc name eight (words ++ behind2)) in
      let split_mask : body d ++ behind2
          ≡ ((name ++ eight) ++ be32 d.ip) ++ (be32 d.mask ++ behind2) =
        split_ip ∙ sym (append_assoc (name ++ eight) (be32 d.ip) (be32 d.mask ++ behind2)) in
      let l8 = length-append name eight in
      (
        s2,
        interface_steps socket n index m d s s1 s2 fits.in_buffer (omega arith) r1
            (word16-at s1 [] size behind1 0 refl refl (omega (arith, fits.in_buffer))) r2
            (ap is_known (split_mac ∙ append_assoc (type_name d.is_physical) (0 ∷ d.unread) _)
              ∙ is_known-type d.is_physical _)
            (ap (read_mac (size - 16)) split_mac
              ∙ read_mac-behind name (words ++ behind2) d.mac d.b6 d.b7 (size - 16) (omega arith))
            (word32-at s2 (name ++ eight) d.ip (be32 d.mask ++ behind2) (size - 8) (omega arith)
              split_ip fits.ip_lt)
            (word32-at s2 ((name ++ eight) ++ be32 d.ip) d.mask behind2 (size - 4)
              (omega (arith, length-append (name ++ eight) (be32 d.ip))) split_mask fits.mask_lt),
        record {
          out = o2 ∙ o1 ∙ sym (append-nil (socket.outgoing s.sfd));
          in_left = i2;
          full =
              omega
                (arith, length-append (body d) behind2, length-drop size (be16 size ++ behind1));
        },
      )
