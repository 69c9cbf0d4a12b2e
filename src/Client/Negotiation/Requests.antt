-- ===== src/Client/Negotiation/Requests.antt =====
-- What the first three negotiations send, and signing in.
use resilient_overlay_networ.Base.{
  ℕ, ◌+◌, ◌-◌, ◌^◌, ◌≤◌, ◌<◌, ◌≡◌, refl, sym, ◌∙◌, List, [], ◌∷◌, ◌++◌, not, ◌==◌, ◌||◌,
  if◌then◌else◌, length, take, arith, length-append, length-take, le→ltb,
}
use mathlib.Core.List.{append-nil}
use resilient_overlay_networ.Wire.Network.{be16, be32, le16-htons}
use resilient_overlay_networ.Client.Arguments.{Settings}
use resilient_overlay_networ.Client.Transfer.{Socket}
use resilient_overlay_networ.Client.Transfer.Complete.{Delivers}
use resilient_overlay_networ.Client.Transfer.Streams.{Separate}
use resilient_overlay_networ.Client.Session.{Session, done, refused, write, write_text, send_buffer}
use resilient_overlay_networ.Client.Session.Steps.{
  at, text_bytes, length-text_bytes, two_texts, write-over, send_buffer-front,
}
use resilient_overlay_networ.Client.Negotiation.{answer, do_signing_in_negotiations}
use resilient_overlay_networ.Client.Negotiation.Reading.{Leaves, answer_lem}

-- The message that signs in: its size, the name and the password.
abbrev pub sign_in_bytes : List ℕ → List ℕ → List ℕ
sign_in_bytes user password =
    be16 (length user + length password + 6) ++ (text_bytes user ++ text_bytes password)

-- The message that selects a map: its size, the map, its creator and whether to make a new one.
abbrev pub map_bytes : Settings → List ℕ
map_bytes settings =
    be16 (length settings.map_name + length settings.creator_id + 10)
    ++ ((text_bytes settings.map_name ++ text_bytes settings.creator_id)
        ++ be32 settings.need_new_map)

abbrev pub node_bytes : List ℕ → List ℕ
node_bytes node = be16 (length node + 1) ++ (node ++ 0 ∷ [])

module _ {S : Type 0} (socket : Socket S) (laws : Delivers socket) (apart : Separate socket) where
  -- A message that lies in front of the buffer, and the two words of the answer.
  pub exchange :
      (n send_code code a b size : ℕ) (sfd : S) (message behind rest : List ℕ)
      → size ≡ length message
      → 0 < size
      → 1524 ≤ n
      → a < 2 ^ 32
      → b < 2 ^ 32
      → length message + length behind ≡ 1524
      → socket.incoming sfd ≡ (be32 a ++ be32 b) ++ rest
      → (s1 s' : Session S) × (send_buffer socket n send_code size (at sfd message behind)
          ≡ done s1)
        × (answer socket n code s1 ≡ done (a, b, s'))
        × Leaves socket (at sfd message behind) s' message rest
  exchange n send_code code a b size sfd message behind rest p pos fuel ha hb full e =
      let (sfd1, r, o, i) =
        send_buffer-front socket laws apart n send_code size sfd message behind p pos
          (omega arith) in
      let whole : length (message ++ behind) ≡ 1524 = omega (arith, length-append message behind) in
      let (s', r', l) =
        answer_lem socket laws apart n code a b rest (at sfd1 message behind) (omega arith) ha hb
          whole (i ∙ e) in
      (
        at sfd1 message behind,
        s',
        r,
        r',
        record {
          out = l.out ∙ append-nil (socket.outgoing sfd1) ∙ o;
          in_left = l.in_left;
          full = l.full;
        },
      )

  -- The steps of signing in, one equation for each.
  sign_in_steps :
      (n end size a b : ℕ) (settings : Settings) (s s1 s2 s3 s4 s5 : Session S) (pos : ℕ)
      → length settings.user_name ≤ 20
      → length settings.password ≤ 50
      → write_text 2 settings.user_name s ≡ done (pos, s1)
      → write_text pos settings.password s1 ≡ done (end, s2)
      → end - 2 ≡ size
      → write 0 (be16 size) s2 ≡ done s3
      → send_buffer socket n 40 end s3 ≡ done s4
      → answer socket n 41 s4 ≡ done (a, b, s5)
      → do_signing_in_negotiations socket n settings s
        ≡ (if not (a == 0) || not (b == 1) then refused 42 else done s5)
  unfolding do_signing_in_negotiations
  sign_in_steps n end size a b settings s s1 s2 s3 s4 s5 pos hu hp e1 e2 z e3 e4 e5 =
      rw
        (
          le→ltb 20 (length settings.user_name) hu,
          le→ltb 50 (length settings.password) hp,
          e1,
          e2,
          z,
          le16-htons size [],
          e3,
          e4,
          e5,
        )
        refl

  -- With a name of at most 20 bytes and a password of at most 50, the server gets both behind the size
  -- of the message, and signing in succeeds exactly on the answer of type 0 with the word 1.
  pub do_signing_in_negotiations-sent :
      (n a b : ℕ) (settings : Settings) (rest : List ℕ) (s : Session S)
      → 1524 ≤ n
      → a < 2 ^ 32
      → b < 2 ^ 32
      → length settings.user_name ≤ 20
      → length settings.password ≤ 50
      → length s.buffer ≡ 1524
      → socket.incoming s.sfd ≡ (be32 a ++ be32 b) ++ rest
      → (s' : Session S) × (do_signing_in_negotiations socket n settings s
          ≡ (if not (a == 0) || not (b == 1) then refused 42 else done s'))
        × Leaves socket s s' (sign_in_bytes settings.user_name settings.password) rest
  do_signing_in_negotiations-sent n a b settings rest s fuel ha hb hu hp full e =
      let user = settings.user_name in
      let password = settings.password in
      let (mid, behind, first, second, size) = two_texts s user password full (omega arith) in
      let body = text_bytes user ++ text_bytes password in
      let end = 8 + length user + length password in
      let total : end - 2 ≡ length user + length password + 6 = omega arith in
      let message = sign_in_bytes user password in
      let long : length message ≡ end = omega (
        arith,
        length-append (text_bytes user) (text_bytes password),
        length-text_bytes user,
        length-text_bytes password,
      ) in
      let third =
        write-over s.sfd (take 2 s.buffer) (be16 (length user + length password + 6)) body behind
          (length-take 2 s.buffer (omega arith)) in
      let (s1, s', r, r', l) =
        exchange n 40 41 a b end s.sfd message behind rest (sym long) (omega arith) fuel ha hb
          (omega arith) e in
      (
        s',
        sign_in_steps n end (length user + length password + 6) a b settings s _ _ _ _ s'
            (5 + length user) hu hp first second total third r r',
        record { out = l.out; in_left = l.in_left; full = l.full },
      )
