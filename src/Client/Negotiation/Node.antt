-- ===== src/Client/Negotiation/Node.antt =====
-- The selection of a node.
use resilient_overlay_networ.Base.{
  ℕ, ◌+◌, ◌-◌, ◌%◌, ◌^◌, ◌≤◌, ◌<◌, ◌≡◌, refl, List, [], ◌∷◌, ◌++◌, false, not, ◌==◌, if◌then◌else◌,
  ltb, length, drop, arith, length-append, length-drop, le→ltb, ne→==,
}
use resilient_overlay_networ.Wire.Network.{be16, be32, le16-htons}
use resilient_overlay_networ.Client.Arguments.{Settings}
use resilient_overlay_networ.Client.Transfer.{Socket}
use resilient_overlay_networ.Client.Transfer.Complete.{Delivers}
use resilient_overlay_networ.Client.Transfer.Streams.{Separate}
use resilient_overlay_networ.Client.Session.{Session, done, refused, write, send_buffer}
use resilient_overlay_networ.Client.Session.Steps.{write-front}
use resilient_overlay_networ.Client.Negotiation.{
  answer, node_verdict, do_node_selecting_negotiations,
}
use resilient_overlay_networ.Client.Negotiation.Reading.{Leaves}
use resilient_overlay_networ.Client.Negotiation.Requests.{node_bytes, exchange}

module _ {S : Type 0} (socket : Socket S) (laws : Delivers socket) (apart : Separate socket) where
  node_steps :
      (n a b : ℕ) (settings : Settings) (s s1 s2 s3 s4 : Session S)
      → 0 < length settings.node_name
      → length settings.node_name ≤ 1521
      → write 0 (be16 (length settings.node_name + 1)) s ≡ done s1
      → write 2 (settings.node_name ++ 0 ∷ []) s1 ≡ done s2
      → send_buffer socket n 9 (2 + (length settings.node_name + 1)) s2 ≡ done s3
      → answer socket n 10 s3 ≡ done (a, b, s4)
      → do_node_selecting_negotiations socket n settings s
        ≡ (if not (a == 1) then refused 11 else node_verdict b s4)
  unfolding do_node_selecting_negotiations
  node_steps n a b settings s s1 s2 s3 s4 lo hi e1 e2 e3 e4 =
      let ms : (length settings.node_name + 1) % 2 ^ 32 ≡ length settings.node_name + 1 =
        omega arith in
      let fits : ltb (1524 - 2) (length settings.node_name + 1) ≡ false =
        le→ltb _ _ (omega arith) in
      rw
        (
          ne→== (length settings.node_name) 0 (λ z. absurd (omega arith)),
          ms,
          le16-htons (length settings.node_name + 1) [],
          e1,
          fits,
          e2,
          e3,
          e4,
        )
        refl

  -- With a node name of one to 1521 bytes, the server gets its size and the name, and the selection
  -- succeeds exactly on the answer of type 1 with the word 4.
  pub do_node_selecting_negotiations-sent :
      (n a b : ℕ) (settings : Settings) (rest : List ℕ) (s : Session S)
      → 1524 ≤ n
      → a < 2 ^ 32
      → b < 2 ^ 32
      → 0 < length settings.node_name
      → length settings.node_name ≤ 1521
      → length s.buffer ≡ 1524
      → socket.incoming s.sfd ≡ (be32 a ++ be32 b) ++ rest
      → (s' : Session S) × (do_node_selecting_negotiations socket n settings s
          ≡ (if not (a == 1) then refused 11 else node_verdict b s'))
        × Leaves socket s s' (node_bytes settings.node_name) rest
  do_node_selecting_negotiations-sent n a b settings rest s fuel ha hb lo hi full e =
      let node = settings.node_name in
      let size = be16 (length node + 1) in
      let tail = node ++ 0 ∷ [] in
      let long : length tail ≡ length node + 1 = omega (arith, length-append node (0 ∷ [])) in
      let behind = drop 2 s.buffer in
      let first = write-front s.sfd [] size s.buffer 0 refl (omega arith) in
      let second =
        write-front s.sfd size tail behind 2 refl (omega (arith, length-drop 2 s.buffer)) in
      let behind' = drop (length tail) behind in
      let (s1, s', r, r', l) =
        exchange socket laws apart n 9 10 a b (2 + (length node + 1)) s.sfd (node_bytes node)
          behind' rest (omega arith) (omega arith) fuel ha hb
          (omega (arith, length-drop 2 s.buffer, length-drop (length tail) behind)) e in
      (
        s',
        node_steps n a b settings s _ _ _ s' lo hi first second r r',
        record { out = l.out; in_left = l.in_left; full = l.full },
      )
