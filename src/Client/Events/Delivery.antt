-- ===== src/Client/Events/Delivery.antt =====
-- The frames of the server reach the machine.
use resilient_overlay_networ.Base.{
  ℕ, suc, ◌+◌, ◌-◌, ◌%◌, ◌^◌, ◌≤◌, ◌<◌, ◌≡◌, refl, ap, ◌∙◌, List, [], ◌∷◌, ◌++◌, some, leb, false,
  length, All, arith, lt→ltb, le→ltb, ne→==,
}
use mathlib.Core.List.{append_assoc}
use resilient_overlay_networ.Wire.Order.{htons, read16, ntohs-htons, ntohl-htonl}
use resilient_overlay_networ.Client.Transfer.{Socket}
use resilient_overlay_networ.Client.Transfer.Complete.{Delivers, receive-next}
use resilient_overlay_networ.Wire.Network.{be16, be32, read32-be32}
use resilient_overlay_networ.Client.Events.{
  Event, End, process_frame, Step, next, overrun, aborted, on_received, fetch, or_overrun,
  raw_frame, on_header, simulation_event, put_event, simulation_event_loop,
}

-- The first six bytes of a message: its type and its size.
abbrev pub header : ℕ → ℕ → List ℕ
header type size = be32 type ++ be16 size

-- A frame for an interface, as the server sends it.
abbrev pub notification : List ℕ × ℕ → List ℕ
notification (frame, interface_index) =
    header 4 (4 + length frame) ++ (be32 interface_index ++ frame)

abbrev pub notifications : List (List ℕ × ℕ) → List ℕ
notifications [] = []
notifications (x ∷ xs) = notification x ++ notifications xs

-- The frame fits into the buffer behind its index, and the machine has the interface.
abbrev pub Fits : ℕ → List ℕ × ℕ → Type 0
Fits count (frame, interface_index) = (length frame ≤ 1520) × (interface_index < count)

-- The events of the frames, in front of what the loop does later; and the count of their bytes.
abbrev pub processed : List (List ℕ × ℕ) → List Event × End → List Event × End
processed [] later = later
processed ((frame, interface_index) ∷ xs) later =
    put_event (process_frame frame interface_index) (processed xs later)

abbrev pub counted : List (List ℕ × ℕ) → ℕ → ℕ
counted [] received_bytes = received_bytes
counted ((frame, interface_index) ∷ xs) received_bytes =
    counted xs ((received_bytes + length frame) % 2 ^ 64)

lt→leb : (a b : ℕ) → b < a → leb a b ≡ false
lt→leb a b h = ground arith

read16-header : (type size : ℕ) → read16 (header type size) 4 ≡ some (htons size)
unfolding read16 htons
read16-header type size = ap some (omega arith)

module _ {S : Type 0} (socket : Socket S) (laws : Delivers socket) where
  fetched :
      (n size : ℕ) (bytes rest : List ℕ) (s : S) (code : ℕ) (f : List ℕ → S → Step S)
      → size ≡ length bytes
      → length bytes ≤ n
      → 0 < length bytes
      → length bytes ≤ 1524
      → socket.incoming s ≡ bytes ++ rest
      → (s' : S) × (fetch socket n size s code f ≡ f bytes s') × (socket.incoming s' ≡ rest)
  unfolding fetch on_received
  fetched n size bytes rest s code f z h p b e =
      let (s', r, i) = receive-next socket laws n bytes rest s h p e in
      (s', rw (z, le→ltb 1524 (length bytes) b, r) refl, i)

  header_read :
      (n count received_bytes type size : ℕ) (rest : List ℕ) (s : S)
      → 6 ≤ n
      → type < 2 ^ 32
      → size < 2 ^ 16
      → socket.incoming s ≡ header type size ++ rest
      → (s' : S) × (simulation_event socket n count received_bytes s
          ≡ on_header socket n count received_bytes type size s')
        × (socket.incoming s' ≡ rest)
  unfolding simulation_event or_overrun
  header_read n count received_bytes type size rest s h t z e =
      let (s', r, i) =
        fetched n 6 (header type size) rest s 26 _ refl h (omega arith) (omega arith) e in
      (
        s',
        r
            ∙ rw
                (
                  read32-be32 type (be16 size),
                  read16-header type size,
                  ntohl-htonl type t,
                  ntohs-htons size z,
                )
                refl,
        i,
      )

  frame_received :
      (n count received_bytes : ℕ) (frame : List ℕ) (interface_index : ℕ) (rest : List ℕ) (s : S)
      → 1524 ≤ n
      → count < 2 ^ 31
      → Fits count (frame, interface_index)
      → socket.incoming s ≡ notification (frame, interface_index) ++ rest
      → (s' : S) × (simulation_event socket n count received_bytes s
          ≡ next
              (process_frame frame interface_index)
              s'
              ((received_bytes + length frame) % 2 ^ 64))
        × (socket.incoming s' ≡ rest)
  unfolding on_header raw_frame or_overrun
  frame_received n count received_bytes frame index rest s h c (f, i) e =
      let (s1, r1, e1) =
        header_read n count received_bytes 4 (4 + length frame) (be32 index ++ frame ++ rest) s
          (omega arith) (omega arith) (omega arith)
          (e ∙ append_assoc (header 4 (4 + length frame)) (be32 index ++ frame) rest) in
      let body = be32 index ++ frame in
      let back : 4 + length frame - 4 ≡ length frame = omega arith in
      let (s2, r2, e2) =
        fetched n (4 + length frame) body rest s1 29
          (raw_frame count (4 + length frame) received_bytes) (omega arith) (omega arith)
          (omega arith) (omega arith) e1 in
      (
        s2,
        r1
            ∙ rw
                (
                  le→ltb (4 + length frame) 4 (omega arith),
                  le→ltb 1524 (4 + length frame) (omega arith),
                  r2,
                  read32-be32 index frame,
                  ntohl-htonl index (omega arith),
                  lt→leb (2 ^ 31) index (omega arith),
                  lt→leb count index i,
                  back,
                )
                refl,
        e2,
      )

  -- The frames that the server sends reach the machine, all of them, in order, each whole and with
  -- its interface, whatever follows them, and `receivedBytes` counts their bytes: for frames of at
  -- most 1520 bytes and interfaces that the machine has, fewer than 2 ^ 31, on a socket that gives
  -- at least one of the next bytes in each call, with 1524 calls of `recv` allowed for one
  -- transfer.
  pub notifications-processed :
      (n count received_bytes rounds : ℕ) (xs : List (List ℕ × ℕ)) (rest : List ℕ) (s : S)
      → 1524 ≤ n
      → count < 2 ^ 31
      → All (Fits count) xs
      → socket.incoming s ≡ notifications xs ++ rest
      → (s' : S) × (simulation_event_loop socket n (length xs + rounds) count received_bytes s
          ≡ processed xs
              (simulation_event_loop socket n rounds count (counted xs received_bytes) s'))
        × (socket.incoming s' ≡ rest)
  unfolding simulation_event_loop
  notifications-processed n count rb rounds [] rest s h c f e =
      let none_left : length {A = List ℕ × ℕ} [] + rounds ≡ rounds = omega arith in
      (s, ap (λ k. simulation_event_loop socket n k count rb s) none_left, e)
  notifications-processed n count rb rounds ((frame, index) ∷ xs) rest s h c (f, fs) e =
      let (s1, r1, e1) =
        frame_received n count rb frame index (notifications xs ++ rest) s h c f
          (e ∙ append_assoc (notification (frame, index)) (notifications xs) rest) in
      let (s2, r2, e2) =
        notifications-processed n count ((rb + length frame) % 2 ^ 64) rounds xs rest s1 h c fs
          e1 in
      let one_more : suc (length xs) + rounds ≡ suc (length xs + rounds) = omega arith in
      (
        s2,
        ap (λ k. simulation_event_loop socket n k count rb s) one_more
            ∙ rw (simulation_event_loop, r1) (ap (put_event (process_frame frame index)) r2),
        e2,
      )

  -- A message of another type ends the loop.
  pub unknown_aborted :
      (n count received_bytes rounds type size : ℕ) (rest : List ℕ) (s : S)
      → 6 ≤ n
      → 5 < type
      → type < 2 ^ 32
      → size < 2 ^ 16
      → socket.incoming s ≡ header type size ++ rest
      → simulation_event_loop socket n (suc rounds) count received_bytes s ≡ ([], aborted 28)
  unfolding simulation_event_loop on_header
  unknown_aborted n count rb rounds type size rest s h lo hi b e =
      let (s1, r1, e1) = header_read n count rb type size rest s h hi b e in
      rw
        (
          simulation_event_loop,
          r1,
          ne→== type 5 (λ x. omega arith),
          ne→== type 4 (λ x. omega arith),
        )
        refl

  -- A warning about an interface whose text is longer than the buffer's 1524 bytes and has a 16-bit
  -- size makes the loop hand `recv` more room than there is: its size is not compared with the
  -- buffer's, as that of a frame is. The socket is one that gives at least one of the next bytes in
  -- each call, with six calls allowed for the header.
  pub warning_overrun :
      (n count received_bytes rounds size : ℕ) (rest : List ℕ) (s : S)
      → 6 ≤ n
      → 1524 < size
      → size < 2 ^ 16
      → socket.incoming s ≡ header 5 size ++ rest
      → simulation_event_loop socket n (suc rounds) count received_bytes s ≡ ([], overrun)
  unfolding simulation_event_loop on_header fetch
  warning_overrun n count rb rounds size rest s h z b e =
      let (s1, r1, e1) = header_read n count rb 5 size rest s h (omega arith) b e in
      rw (simulation_event_loop, r1, le→ltb size 1 (omega arith), lt→ltb 1524 size z) refl
