-- ===== src/Client/Negotiation/Reading.antt =====
-- Words of the server, as the buffer gives them.
use resilient_overlay_networ.Base.{
  ℕ, ◌^◌, ◌≤◌, ◌<◌, ◌≡◌, refl, ap, sym, ◌∙◌, List, [], ◌++◌, length, drop, arith, length-append,
  length-drop,
}
use mathlib.Core.List.{append-nil}
use resilient_overlay_networ.Wire.Order.{ntohs-htons, ntohl-htonl}
use resilient_overlay_networ.Wire.Network.{
  be16, be32, le32-htonl, read32-be32, read16-be16, read32-behind, read16-behind,
}
use resilient_overlay_networ.Client.Transfer.{Socket}
use resilient_overlay_networ.Client.Transfer.Complete.{Delivers}
use resilient_overlay_networ.Client.Transfer.Streams.{Separate}
use resilient_overlay_networ.Client.Session.{Session, done, word16, word32, ask}
use resilient_overlay_networ.Client.Session.Steps.{
  at, write-front, send_buffer-front, receive_buffer-front,
}
use resilient_overlay_networ.Client.Negotiation.{answer}

-- What a step leaves: it has sent some bytes, the server's other bytes are still to come, and the
-- buffer has kept its size.
pub record Leaves {S : Type 0} (socket : Socket S) (s s' : Session S) (sent rest : List ℕ)
    : Type 0 where
  pub out : socket.outgoing s'.sfd ≡ socket.outgoing s.sfd ++ sent
  pub in_left : socket.incoming s'.sfd ≡ rest
  pub full : length s'.buffer ≡ 1524

module _ {S : Type 0} where
  pub word32-at :
      (s : Session S) (front : List ℕ) (a : ℕ) (m : List ℕ) (pos : ℕ)
      → pos ≡ length front
      → s.buffer ≡ front ++ (be32 a ++ m)
      → a < 2 ^ 32
      → word32 pos s ≡ done a
  unfolding word32
  word32-at s front a m pos p e h =
      rw (e, read32-behind front (be32 a ++ m) pos p, read32-be32 a m) (ap done (ntohl-htonl a h))

  pub word16-at :
      (s : Session S) (front : List ℕ) (a : ℕ) (m : List ℕ) (pos : ℕ)
      → pos ≡ length front
      → s.buffer ≡ front ++ (be16 a ++ m)
      → a < 2 ^ 16
      → word16 pos s ≡ done a
  unfolding word16
  word16-at s front a m pos p e h =
      rw (e, read16-behind front (be16 a ++ m) pos p, read16-be16 a m) (ap done (ntohs-htons a h))

module _ {S : Type 0} (socket : Socket S) (laws : Delivers socket) (apart : Separate socket) where
  -- An answer of two words.
  pub answer_lem :
      (n code a b : ℕ) (rest : List ℕ) (s : Session S)
      → 8 ≤ n
      → a < 2 ^ 32
      → b < 2 ^ 32
      → length s.buffer ≡ 1524
      → socket.incoming s.sfd ≡ (be32 a ++ be32 b) ++ rest
      → (s' : Session S) × (answer socket n code s ≡ done (a, b, s')) × Leaves socket s s' [] rest
  unfolding answer
  answer_lem n code a b rest s fuel ha hb full e =
      let (sfd', r, i, o) =
        receive_buffer-front socket laws apart n code 8 s (be32 a ++ be32 b) rest refl (omega arith)
          fuel (omega arith) e in
      let behind = drop 8 s.buffer in
      let s' = at sfd' (be32 a ++ be32 b) behind in
      (
        s',
        rw
            (
              r,
              word32-at s' [] a (be32 b ++ behind) 0 refl refl ha,
              word32-at s' (be32 a) b behind 4 refl refl hb,
            )
            refl,
        record {
          out = o ∙ sym (append-nil (socket.outgoing s.sfd));
          in_left = i;
          full = omega (arith, length-drop 8 s.buffer);
        },
      )

  -- A request of one word and the bytes of the answer.
  pub ask_lem :
      (n request send_code code size : ℕ) (bytes rest : List ℕ) (s : Session S)
      → 1524 ≤ n
      → size ≡ length bytes
      → 0 < size
      → size ≤ 1524
      → length s.buffer ≡ 1524
      → socket.incoming s.sfd ≡ bytes ++ rest
      → (sfd' : S) × (behind : List ℕ) × (ask socket n request send_code code size s
          ≡ done (at sfd' bytes behind))
        × Leaves socket s (at sfd' bytes behind) (be32 request) rest
  unfolding ask
  ask_lem n request send_code code size bytes rest s fuel p pos fits full e =
      let after = drop 4 s.buffer in
      let first = write-front s.sfd [] (be32 request) s.buffer 0 refl (omega arith) in
      let (sfd1, r1, o1, i1) =
        send_buffer-front socket laws apart n send_code 4 s.sfd (be32 request) after refl
          (omega arith) (omega arith) in
      let kept : length (be32 request ++ after) ≡ 1524 = omega (arith, length-drop 4 s.buffer) in
      let (sfd2, r2, i2, o2) =
        receive_buffer-front socket laws apart n code size (at sfd1 (be32 request) after) bytes rest
          p pos (omega arith) (omega arith) (i1 ∙ e) in
      let behind = drop size (be32 request ++ after) in
      (
        sfd2,
        behind,
        rw (le32-htonl request [], first, r1) r2,
        record {
          out = o2 ∙ o1;
          in_left = i2;
          full =
              omega (arith, length-append bytes behind, length-drop size (be32 request ++ after));
        },
      )
