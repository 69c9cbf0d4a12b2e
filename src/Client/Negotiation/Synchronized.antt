-- ===== src/Client/Negotiation/Synchronized.antt =====
-- The whole of the information: all interfaces, and then the custom information.
use resilient_overlay_networ.Base.{
  ℕ, suc, ◌+◌, ◌^◌, ◌≤◌, ◌<◌, ◌≡◌, refl, ap, sym, ◌∙◌, List, [], ◌∷◌, ◌++◌, some, true, false, ltb,
  leb, length, drop, set, All, arith, length-append, length-drop, le→ltb, lt→ltb,
}
use mathlib.Core.List.{append_assoc, append-nil}
use resilient_overlay_networ.Base.Texts.{c_text, c_text_self, IsText}
use resilient_overlay_networ.Wire.{Mac}
use resilient_overlay_networ.Wire.Network.{be16, be32}
use resilient_overlay_networ.Client.Transfer.{Socket}
use resilient_overlay_networ.Client.Transfer.Complete.{Delivers}
use resilient_overlay_networ.Client.Transfer.Streams.{Separate}
use resilient_overlay_networ.Client.Machine.{
  Interface, Machine, blank_interface, blank_interfaces, new_machine, init_interface,
  set_custom_information,
}
use resilient_overlay_networ.Client.Session.{Session, done, word16, word32, receive_buffer, ask}
use resilient_overlay_networ.Client.Session.Steps.{at, receive_buffer-front}
use resilient_overlay_networ.Client.Negotiation.{
  read_interface_information, read_interfaces,
  do_interfaces_information_synchronization_negotiations,
  do_custom_information_synchronization_negotiations,
}
use resilient_overlay_networ.Client.Negotiation.Reading.{Leaves, word16-at, word32-at, ask_lem}
use resilient_overlay_networ.Client.Negotiation.Information.{
  Described, Fits, description, interface, read_interface-described,
}

abbrev pub descriptions : List Described → List ℕ
descriptions [] = []
descriptions (d ∷ ds) = description d ++ descriptions ds

-- The interfaces that the descriptions make, from an index on.
abbrev pub interfaces : ℕ → List Described → List Interface
interfaces index [] = []
interfaces index (d ∷ ds) = interface index d ∷ interfaces (suc index) ds

-- The answer about the interfaces, and that about the custom information.
abbrev pub interfaces_answer : List Described → List ℕ
interfaces_answer ds = (be32 2 ++ (be32 1 ++ be32 (length ds))) ++ descriptions ds

abbrev pub custom_answer : List ℕ → List ℕ
custom_answer info = (be32 2 ++ (be32 2 ++ be16 (length info + 1))) ++ (info ++ 0 ∷ [])

set-front :
    (front rest : List Interface) (old new : Interface)
    → set (front ++ old ∷ rest) (length front) new ≡ front ++ new ∷ rest
set-front [] rest old new = refl
set-front (i ∷ front) rest old new = ap (λ t. i ∷ t) (set-front front rest old new)

lt→leb : (a b : ℕ) → b < a → leb a b ≡ false
lt→leb a b h = ground arith

-- The next interface is initialised.
init_next :
    (info : List ℕ) (front rest : List Interface) (old : Interface) (mac : Mac) (ip mask : ℕ)
    → init_interface
        (record { custom_info = info; iface = front ++ old ∷ rest })
        (length front)
        mac
        ip
        mask
      ≡ record {
        custom_info = info;
        iface = front ++ (record { mac = mac; index = length front; ip = ip; mask = mask }) ∷ rest;
      }
unfolding init_interface
init_next info front rest old mac ip mask =
    let has : ltb (length front) (length (front ++ old ∷ rest)) ≡ true =
      lt→ltb _ _ (omega (arith, length-append front (old ∷ rest))) in
    rw
      (
        has,
        set-front front rest old (record { mac = mac; index = length front; ip = ip; mask = mask }),
      )
      refl

abbrev pub machine : List ℕ → List Interface → Machine
machine info iface = record { custom_info = info; iface = iface }

module _ {S : Type 0} (socket : Socket S) where
  interfaces_step :
      (n count index : ℕ) (m m1 m2 : Machine) (s s1 : Session S)
      → read_interface_information socket n m index s ≡ done (m1, s1)
      → m1 ≡ m2
      → read_interfaces socket n (suc count) index m s
        ≡ read_interfaces socket n count (suc index) m2 s1
  unfolding read_interfaces
  interfaces_step n count index m m1 m2 s s1 e z = rw (e, z) refl

module _ {S : Type 0} (socket : Socket S) (laws : Delivers socket) (apart : Separate socket) where
  read_interfaces-described :
      (n : ℕ) (ds : List Described) (info : List ℕ) (front : List Interface) (index : ℕ)
      (rest : List ℕ) (s : Session S)
      → 1524 ≤ n
      → index ≡ length front
      → All Fits ds
      → length s.buffer ≡ 1524
      → socket.incoming s.sfd ≡ descriptions ds ++ rest
      → (s' : Session S) × (read_interfaces socket n
            (length ds)
            index
            (machine info (front ++ blank_interfaces (length ds)))
            s
          ≡ done (machine info (front ++ interfaces index ds), s'))
        × Leaves socket s s' [] rest
  unfolding read_interfaces blank_interfaces
  read_interfaces-described n [] info front index rest s fuel k fits full e =
      (s, refl, record { out = sym (append-nil (socket.outgoing s.sfd)); in_left = e; full = full })
  read_interfaces-described n (d ∷ ds) info front index rest s fuel k (f, fs) full e =
      let blanks = blank_interfaces (length ds) in
      let m = machine info (front ++ blank_interface ∷ blanks) in
      let (s1, r1, l1) =
        read_interface-described socket laws apart n index m d (descriptions ds ++ rest) s fuel f
          full (e ∙ append_assoc (description d) (descriptions ds) rest) in
      let new = interface index d in
      let longer : suc index ≡ length (front ++ new ∷ []) =
        omega (arith, length-append front (new ∷ [])) in
      let (s2, r2, l2) =
        read_interfaces-described n ds info (front ++ new ∷ []) (suc index) rest s1 fuel longer fs
          l1.full l1.in_left in
      let made : init_interface m index d.mac d.ip d.mask ≡ machine info (front ++ new ∷ blanks) =
        rw k (init_next info front blanks blank_interface d.mac d.ip d.mask) in
      (
        s2,
        interfaces_step socket n (length ds) index m _ _ s s1 r1 made
            ∙ ap (λ l. read_interfaces socket n (length ds) (suc index) (machine info l) s1)
                (sym (append_assoc front (new ∷ []) blanks))
            ∙ r2
            ∙ ap (λ l. done (machine info l, s2))
                (append_assoc front (new ∷ []) (interfaces (suc index) ds)),
        record {
          out = l2.out ∙ append-nil (socket.outgoing s1.sfd) ∙ l1.out;
          in_left = l2.in_left;
          full = l2.full;
        },
      )

  pub interfaces_asked :
      (n : ℕ) (ds : List Described) (rest : List ℕ) (s : Session S)
      → 1524 ≤ n
      → 0 < length ds
      → length ds < 2 ^ 31
      → All Fits ds
      → length s.buffer ≡ 1524
      → socket.incoming s.sfd ≡ interfaces_answer ds ++ rest
      → (s' : Session S) × (do_interfaces_information_synchronization_negotiations socket n s
          ≡ done (machine [] (interfaces 0 ds), s'))
        × Leaves socket s s' (be32 0) rest
  unfolding do_interfaces_information_synchronization_negotiations new_machine
  interfaces_asked n ds rest s fuel some_one few fits full e =
      let words = be32 2 ++ (be32 1 ++ be32 (length ds)) in
      let (sfd1, behind, r1, l1) =
        ask_lem socket laws apart n 0 14 15 12 words (descriptions ds ++ rest) s fuel refl
          (omega arith) (omega arith) full (e ∙ append_assoc words (descriptions ds) rest) in
      let s1 = at sfd1 words behind in
      let (s2, r2, l2) =
        read_interfaces-described n ds [] [] 0 rest s1 fuel refl fits l1.full l1.in_left in
      (
        s2,
        rw
            (
              r1,
              word32-at s1 [] 2 ((be32 1 ++ be32 (length ds)) ++ behind) 0 refl refl (omega arith),
              word32-at s1 (be32 2) 1 (be32 (length ds) ++ behind) 4 refl refl (omega arith),
              word32-at s1 (be32 2 ++ be32 1) (length ds) behind 8 refl refl (omega arith),
              le→ltb (length ds) 1 some_one,
              lt→leb (2 ^ 31) (length ds) few,
            )
            r2,
        record {
          out = l2.out ∙ append-nil (socket.outgoing sfd1) ∙ l1.out;
          in_left = l2.in_left;
          full = l2.full;
        },
      )

  custom_steps :
      (n size : ℕ) (m : Machine) (info : List ℕ) (s s1 s2 : Session S)
      → ask socket n 1 20 21 10 s ≡ done s1
      → word32 0 s1 ≡ done 2
      → word32 4 s1 ≡ done 2
      → word16 8 s1 ≡ done size
      → 1 ≤ size
      → receive_buffer socket n 23 size s1 ≡ done s2
      → c_text s2.buffer ≡ some info
      → do_custom_information_synchronization_negotiations socket n m s
        ≡ done (set_custom_information m info, s2)
  unfolding do_custom_information_synchronization_negotiations
  custom_steps n size m info s s1 s2 e1 e2 e3 e4 h e5 e6 =
      rw (e1, e2, e3, e4, le→ltb size 1 h, e5, e6) refl

  pub custom_asked :
      (n : ℕ) (m : Machine) (info rest : List ℕ) (s : Session S)
      → 1524 ≤ n
      → IsText info
      → length info < 1524
      → length s.buffer ≡ 1524
      → socket.incoming s.sfd ≡ custom_answer info ++ rest
      → (s' : Session S) × (do_custom_information_synchronization_negotiations socket n m s
          ≡ done (set_custom_information m info, s'))
        × Leaves socket s s' (be32 1) rest
  custom_asked n m info rest s fuel text short full e =
      let size = length info + 1 in
      let words = be32 2 ++ (be32 2 ++ be16 size) in
      let bytes = info ++ 0 ∷ [] in
      let (sfd1, behind, r1, l1) =
        ask_lem socket laws apart n 1 20 21 10 words (bytes ++ rest) s fuel refl (omega arith)
          (omega arith) full (e ∙ append_assoc words bytes rest) in
      let s1 = at sfd1 words behind in
      let long : size ≡ length bytes = omega (arith, length-append info (0 ∷ [])) in
      let (sfd2, r2, i2, o2) =
        receive_buffer-front socket laws apart n 23 size s1 bytes rest long (omega arith)
          (omega arith) (omega (arith, l1.full)) l1.in_left in
      let after = drop size s1.buffer in
      (
        at sfd2 bytes after,
        custom_steps n size m info s s1 (at sfd2 bytes after) r1
            (word32-at s1 [] 2 ((be32 2 ++ be16 size) ++ behind) 0 refl refl (omega arith))
            (word32-at s1 (be32 2) 2 (be16 size ++ behind) 4 refl refl (omega arith))
            (word16-at s1 (be32 2 ++ be32 2) size behind 8 refl refl (omega arith)) (omega arith) r2
            (ap c_text (append_assoc info (0 ∷ []) after) ∙ c_text_self info after text),
        record {
          out = o2 ∙ l1.out;
          in_left = i2;
          full = omega (arith, length-append bytes after, length-drop size s1.buffer, l1.full);
        },
      )
