-- ===== src/Client/Negotiation/Map.antt =====
-- The selection of a map.
use resilient_overlay_networ.Base.{
  ℕ, ◌+◌, ◌-◌, ◌*◌, ◌^◌, ◌≤◌, ◌<◌, ◌≡◌, refl, ap, sym, ◌∙◌, List, [], ◌++◌, false, not, ◌==◌,
  if◌then◌else◌, ltb, length, take, drop, arith, length-append, length-drop, length-take, le→ltb,
}
use mathlib.Core.List.{append_assoc}
use resilient_overlay_networ.Wire.Network.{be16, be32, le16-htons, le32-htonl}
use resilient_overlay_networ.Client.Arguments.{Settings}
use resilient_overlay_networ.Client.Transfer.{Socket}
use resilient_overlay_networ.Client.Transfer.Complete.{Delivers}
use resilient_overlay_networ.Client.Transfer.Streams.{Separate}
use resilient_overlay_networ.Client.Session.{
  Session, done, refused, fault, write, write_text, send_buffer,
}
use resilient_overlay_networ.Client.Session.Steps.{
  at, text_bytes, length-text_bytes, two_texts, write-over, write-front, write_fault,
}
use resilient_overlay_networ.Client.Negotiation.{
  own_map, answer, map_verdict, do_map_selecting_negotiations,
}
use resilient_overlay_networ.Client.Negotiation.Reading.{Leaves}
use resilient_overlay_networ.Client.Negotiation.Requests.{map_bytes, exchange}

own_map-map_name : (settings : Settings) → (own_map settings).map_name ≡ settings.map_name
unfolding own_map
own_map-map_name settings = ground arith

module _ {S : Type 0} (socket : Socket S) (laws : Delivers socket) (apart : Separate socket) where
  map_steps :
      (n pos pos' size a b : ℕ) (settings : Settings) (s s1 s2 s3 s4 s5 s6 : Session S)
      → length (own_map settings).map_name + length (own_map settings).creator_id ≤ 1514
      → write_text 2 (own_map settings).map_name s ≡ done (pos, s1)
      → write_text pos (own_map settings).creator_id s1 ≡ done (pos', s2)
      → write pos' (be32 (own_map settings).need_new_map) s2 ≡ done s3
      → pos' + 4 - 2 ≡ size
      → write 0 (be16 size) s3 ≡ done s4
      → send_buffer socket n 2 (pos' + 4) s4 ≡ done s5
      → answer socket n 3 s5 ≡ done (a, b, s6)
      → do_map_selecting_negotiations socket n settings s
        ≡ (if not (a == 1) then refused 4 else map_verdict b (own_map settings, s6))
  unfolding do_map_selecting_negotiations
  map_steps n pos pos' size a b settings s s1 s2 s3 s4 s5 s6 h e1 e2 e3 z e4 e5 e6 =
      let fits : ltb 1524
            (3 * 2 + length (own_map settings).map_name + length (own_map settings).creator_id + 4)
          ≡ false =
        le→ltb _ _ (omega arith) in
      rw
        (
          fits,
          e1,
          e2,
          le32-htonl (own_map settings).need_new_map [],
          e3,
          z,
          le16-htons size [],
          e4,
          e5,
          e6,
        )
        refl

  -- Over a socket that makes progress in each call, with 1524 calls allowed for one transfer, and whose
  -- two directions are apart: with a map name and a creator of at most 1512 bytes in all, the server gets
  -- both behind the size of the message, and then the word that asks for a new map or the release of
  -- one. Unless that word is 0, the creator is the user. If the answer is two 32-bit words, it is taken
  -- off the socket, and the selection ends with error 4 unless the first is 1, and else as the second
  -- says.
  pub do_map_selecting_negotiations-sent :
      (n a b : ℕ) (settings : Settings) (rest : List ℕ) (s : Session S)
      → 1524 ≤ n
      → a < 2 ^ 32
      → b < 2 ^ 32
      → length settings.map_name + length (own_map settings).creator_id ≤ 1512
      → length s.buffer ≡ 1524
      → socket.incoming s.sfd ≡ (be32 a ++ be32 b) ++ rest
      → (s' : Session S) × (do_map_selecting_negotiations socket n settings s
          ≡ (if not (a == 1) then refused 4 else map_verdict b (own_map settings, s')))
        × Leaves socket s s' (map_bytes (own_map settings)) rest
  do_map_selecting_negotiations-sent n a b settings rest s fuel ha hb h full e =
      let mine = own_map settings in
      let same : mine.map_name ≡ settings.map_name = own_map-map_name settings in
      let map = mine.map_name in
      let creator = mine.creator_id in
      let h' : length map + length creator ≤ 1512 = rw same h in
      let (mid, behind, first, second, size) = two_texts s map creator full (omega arith) in
      let texts = text_bytes map ++ text_bytes creator in
      let pos' = 8 + length map + length creator in
      let flag = be32 mine.need_new_map in
      let behind' = drop 4 behind in
      let two = length-take 2 s.buffer (omega arith) in
      let long_texts : length texts ≡ length map + length creator + 6 = omega (
        arith,
        length-append (text_bytes map) (text_bytes creator),
        length-text_bytes map,
        length-text_bytes creator,
      ) in
      let third =
        write-front s.sfd (take 2 s.buffer ++ texts) flag behind pos'
          (omega (arith, length-append (take 2 s.buffer) texts)) (omega arith) in
      let total : pos' + 4 - 2 ≡ length map + length creator + 10 = omega arith in
      let message = map_bytes mine in
      let long : length message ≡ pos' + 4 = omega (arith, length-append texts flag) in
      let fourth =
        ap (λ f. write 0 (be16 (length map + length creator + 10)) (at s.sfd f behind'))
          (append_assoc (take 2 s.buffer) texts flag)
        ∙ write-over s.sfd (take 2 s.buffer) (be16 (length map + length creator + 10))
            (texts ++ flag) behind' two in
      let (s1, s', r, r', l) =
        exchange socket laws apart n 2 3 a b (pos' + 4) s.sfd message behind' rest (sym long)
          (omega arith) fuel ha hb (omega (arith, length-drop 4 behind)) e in
      (
        s',
        map_steps n (5 + length map) pos' (length map + length creator + 10) a b settings s _ _ _ _
            _ s' (omega arith) first second third total fourth r r',
        record { out = l.out; in_left = l.in_left; full = l.full },
      )

  map_steps_fault :
      (n pos pos' : ℕ) (settings : Settings) (s s1 s2 : Session S)
      → length (own_map settings).map_name + length (own_map settings).creator_id ≤ 1514
      → write_text 2 (own_map settings).map_name s ≡ done (pos, s1)
      → write_text pos (own_map settings).creator_id s1 ≡ done (pos', s2)
      → write pos' (be32 (own_map settings).need_new_map) s2 ≡ fault
      → do_map_selecting_negotiations socket n settings s ≡ fault
  unfolding do_map_selecting_negotiations
  map_steps_fault n pos pos' settings s s1 s2 h e1 e2 e3 =
      let fits : ltb 1524
            (3 * 2 + length (own_map settings).map_name + length (own_map settings).creator_id + 4)
          ≡ false =
        le→ltb _ _ (omega arith) in
      rw (fits, e1, e2, le32-htonl (own_map settings).need_new_map [], e3) refl

  -- The test of the length leaves out the two NUL bytes: a map name and a creator of 1513 or 1514 bytes
  -- in all pass it, and the message is written behind the end of the buffer, which has 1524 bytes.
  pub do_map_selecting_negotiations_overrun :
      (n : ℕ) (settings : Settings) (s : Session S)
      → length s.buffer ≡ 1524
      → 1512 < length settings.map_name + length (own_map settings).creator_id
      → length settings.map_name + length (own_map settings).creator_id ≤ 1514
      → do_map_selecting_negotiations socket n settings s ≡ fault
  do_map_selecting_negotiations_overrun n settings s full lo hi =
      let mine = own_map settings in
      let same : mine.map_name ≡ settings.map_name = own_map-map_name settings in
      let map = mine.map_name in
      let creator = mine.creator_id in
      let lo' : 1512 < length map + length creator = rw same lo in
      let hi' : length map + length creator ≤ 1514 = rw same hi in
      let (mid, behind, first, second, size) = two_texts s map creator full (omega arith) in
      let texts = text_bytes map ++ text_bytes creator in
      let front = take 2 s.buffer ++ texts in
      let all : length (front ++ behind) < 8 + length map + length creator + 4 = omega (
        arith,
        length-append front behind,
        length-append (take 2 s.buffer) texts,
        length-take 2 s.buffer (omega arith),
        length-append (text_bytes map) (text_bytes creator),
        length-text_bytes map,
        length-text_bytes creator,
      ) in
      map_steps_fault n (5 + length map) (8 + length map + length creator) settings s _ _ hi' first
        second
        (write_fault (8 + length map + length creator) (be32 mine.need_new_map)
          (at s.sfd front behind) all)
