-- ===== src/Client/Negotiation/Whole.antt =====
-- The negotiations as a whole, with a server that accepts.
use resilient_overlay_networ.Base.{
  ℕ, ◌+◌, ◌^◌, ◌≤◌, ◌<◌, ◌≡◌, refl, ap, ◌∙◌, List, [], ◌++◌, length, All, arith, not, ◌==◌,
  if◌then◌else◌,
}
use mathlib.Core.List.{append_assoc}
use resilient_overlay_networ.Base.Texts.{IsText}
use resilient_overlay_networ.Wire.Network.{be32}
use resilient_overlay_networ.Client.Arguments.{Settings}
use resilient_overlay_networ.Client.Transfer.{Socket}
use resilient_overlay_networ.Client.Transfer.Complete.{Delivers}
use resilient_overlay_networ.Client.Transfer.Streams.{Separate}
use resilient_overlay_networ.Client.Session.{Session, done, refused}
use resilient_overlay_networ.Client.Session.Steps.{at}
use resilient_overlay_networ.Client.Negotiation.{
  own_map, map_verdict, node_verdict, do_signing_in_negotiations, do_map_selecting_negotiations,
  do_node_selecting_negotiations, do_information_synchronization_negotiations,
  do_initial_recovery_negotiations, do_initial_negotiations, announce_simulation_resume,
}
use resilient_overlay_networ.Client.Negotiation.Reading.{Leaves, ask_lem, word32-at}
use resilient_overlay_networ.Client.Negotiation.Requests.{
  sign_in_bytes, map_bytes, node_bytes, do_signing_in_negotiations-sent,
}
use resilient_overlay_networ.Client.Negotiation.Map.{do_map_selecting_negotiations-sent}
use resilient_overlay_networ.Client.Negotiation.Node.{do_node_selecting_negotiations-sent}
use resilient_overlay_networ.Client.Negotiation.Information.{Described, Fits}
use resilient_overlay_networ.Client.Negotiation.Synchronized.{
  machine, interfaces, interfaces_answer, custom_answer, interfaces_asked, custom_asked,
}

-- The texts are short enough for the buffer, and a node is named.
pub record Short (settings : Settings) : Type 0 where
  pub user_le : length settings.user_name ≤ 20
  pub password_le : length settings.password ≤ 50
  pub map_le : length settings.map_name + length (own_map settings).creator_id ≤ 1512
  pub node_some : 0 < length settings.node_name
  pub node_le : length settings.node_name ≤ 1521

-- What the client sends to sign in and to select its map and node, and what the server answers.
abbrev pub selection : Settings → List ℕ
selection settings =
    sign_in_bytes settings.user_name settings.password
    ++ (map_bytes (own_map settings) ++ node_bytes settings.node_name)

abbrev pub accepted : List ℕ → List ℕ
accepted rest = (be32 0 ++ be32 1) ++ ((be32 1 ++ be32 2) ++ ((be32 1 ++ be32 4) ++ rest))

own_map-node_name : (settings : Settings) → (own_map settings).node_name ≡ settings.node_name
unfolding own_map
own_map-node_name settings = ground arith

module _ {S : Type 0} (socket : Socket S) where
  pub Leaves-then :
      {s s1 s2 : Session S} {sent sent1 rest rest1 : List ℕ}
      → Leaves socket s s1 sent rest
      → Leaves socket s1 s2 sent1 rest1
      → Leaves socket s s2 (sent ++ sent1) rest1
  Leaves-then {s} {s1} {s2} {sent} {sent1} l l1 = record {
    out = l1.out ∙ ap (λ t. t ++ sent1) l.out ∙ append_assoc (socket.outgoing s.sfd) sent sent1;
    in_left = l1.in_left;
    full = l1.full;
  }

module _ {S : Type 0} (socket : Socket S) (laws : Delivers socket) (apart : Separate socket) where
  -- The three steps, as they end on such answers.
  selected :
      (n : ℕ) (settings : Settings) (rest : List ℕ) (s : Session S)
      → 1524 ≤ n
      → Short settings
      → length s.buffer ≡ 1524
      → socket.incoming s.sfd ≡ accepted rest
      → (s1 s2 s3 : Session S) × (do_signing_in_negotiations socket n settings s ≡ done s1)
        × (do_map_selecting_negotiations socket n settings s1 ≡ done (own_map settings, s2))
        × (do_node_selecting_negotiations socket n (own_map settings) s2 ≡ done s3)
        × Leaves socket s s3 (selection settings) rest
  unfolding map_verdict node_verdict
  selected n settings rest s fuel short full e =
      let mine = own_map settings in
      let named = own_map-node_name settings in
      let (s1, r1, l1) =
        do_signing_in_negotiations-sent socket laws apart n 0 1 settings _ s fuel (omega arith)
          (omega arith) short.user_le short.password_le full e in
      let (s2, r2, l2) =
        do_map_selecting_negotiations-sent socket laws apart n 1 2 settings _ s1 fuel (omega arith)
          (omega arith) short.map_le l1.full l1.in_left in
      let (s3, r3, l3) =
        do_node_selecting_negotiations-sent socket laws apart n 1 4 mine rest s2 fuel (omega arith)
          (omega arith) (rw named short.node_some) (rw named short.node_le) l2.full l2.in_left in
      let l3' : Leaves socket s2 s3 (node_bytes settings.node_name) rest = rw named at l3 in
      (s1, s2, s3, r1, r2, r3, Leaves-then socket l1 (Leaves-then socket l2 l3'))

  -- When the simulation is taken up again, a server that accepts gets the user, the map and the node,
  -- in this order and each once, and the settings are kept, with the user as the creator of a new map:
  -- on texts that are short enough for the buffer, the node's not empty, over a socket that makes
  -- progress in each call, with 1524 calls allowed for one transfer.
  pub do_initial_recovery_negotiations-accepted :
      (n : ℕ) (settings : Settings) (rest : List ℕ) (s : Session S)
      → 1524 ≤ n
      → Short settings
      → length s.buffer ≡ 1524
      → socket.incoming s.sfd ≡ accepted rest
      → (s' : Session S) × (do_initial_recovery_negotiations socket n settings s
          ≡ done (own_map settings, s'))
        × Leaves socket s s' (selection settings) rest
  unfolding do_initial_recovery_negotiations
  do_initial_recovery_negotiations-accepted n settings rest s fuel short full e =
      let (s1, s2, s3, r1, r2, r3, l) = selected n settings rest s fuel short full e in
      (s3, rw (r1, r2, r3) refl, l)

  -- With a server that accepts and then describes the interfaces and the custom information, the
  -- negotiations succeed: the machine has just these interfaces, in their order, and this information,
  -- and the client has sent its five requests, in order and each once. The texts are short enough for
  -- the buffer, the node's not empty; there are between one and 2 ^ 31 - 1 descriptions, each of at most
  -- 1524 bytes, and at most 1523 bytes of information without a NUL; the socket makes progress in each
  -- call, with 1524 calls allowed for one transfer, and its two directions are apart. The numbers of the
  -- descriptions are 32-bit words, and the buffer has 1524 bytes.
  pub do_initial_negotiations-accepted :
      (n : ℕ) (settings : Settings) (ds : List Described) (info rest : List ℕ) (s : Session S)
      → 1524 ≤ n
      → Short settings
      → 0 < length ds
      → length ds < 2 ^ 31
      → All Fits ds
      → IsText info
      → length info < 1524
      → length s.buffer ≡ 1524
      → socket.incoming s.sfd ≡ accepted (interfaces_answer ds ++ (custom_answer info ++ rest))
      → (s' : Session S) × (do_initial_negotiations socket n settings s
          ≡ done (own_map settings, machine info (interfaces 0 ds), s'))
        × Leaves socket s s' (selection settings ++ (be32 0 ++ be32 1)) rest
  unfolding do_initial_negotiations do_information_synchronization_negotiations
  do_initial_negotiations-accepted n settings ds info rest s fuel short some_one few fits text small
        full e =
      let (s1, s2, s3, r1, r2, r3, l) = selected n settings _ s fuel short full e in
      let (s4, r4, l4) =
        interfaces_asked socket laws apart n ds _ s3 fuel some_one few fits l.full l.in_left in
      let (s5, r5, l5) =
        custom_asked socket laws apart n (machine [] (interfaces 0 ds)) info rest s4 fuel text small
          l4.full l4.in_left in
      (s5, rw (r1, r2, r3, r4, r5) refl, Leaves-then socket l (Leaves-then socket l4 l5))

  -- The start is asked for with one word, and succeeds exactly on the answer 3.
  pub announce_simulation_resume-sent :
      (n a : ℕ) (rest : List ℕ) (s : Session S)
      → 1524 ≤ n
      → a < 2 ^ 32
      → length s.buffer ≡ 1524
      → socket.incoming s.sfd ≡ be32 a ++ rest
      → (s' : Session S) × (announce_simulation_resume socket n s
          ≡ (if not (a == 3) then refused 0 else done s'))
        × Leaves socket s s' (be32 2) rest
  unfolding announce_simulation_resume
  announce_simulation_resume-sent n a rest s fuel ha full e =
      let (sfd', behind, r, l) =
        ask_lem socket laws apart n 2 24 25 4 (be32 a) rest s fuel refl (omega arith) (omega arith)
          full e in
      let s' = at sfd' (be32 a) behind in
      (s', rw (r, word32-at s' [] a behind 0 refl refl ha) refl, l)
