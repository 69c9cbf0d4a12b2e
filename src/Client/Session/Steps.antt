-- ===== src/Client/Session/Steps.antt =====
-- What the steps on the buffer do when they stay in it, or leave it.
use resilient_overlay_networ.Base.{
  ℕ, ◌+◌, ◌-◌, ◌%◌, ◌^◌, ◌≤◌, ◌<◌, ◌≡◌, refl, sym, ap, ◌∙◌, List, [], ◌∷◌, ◌++◌, false, ltb, length,
  take, drop, arith, le→ltb, lt→ltb, length-append, length-drop, length-take, take-drop,
  take-append, drop-append, drop-append_add,
}
use mathlib.Core.List.{append_assoc}
use resilient_overlay_networ.Wire.Network.{be16, le16-htons}
use resilient_overlay_networ.Client.Transfer.{Socket}
use resilient_overlay_networ.Client.Transfer.Complete.{Delivers, receive-next, transmit-all}
use resilient_overlay_networ.Client.Transfer.Streams.{Separate, receive-outgoing, transmit-incoming}
use resilient_overlay_networ.Client.Session.{
  Session, done, fault, write, write_text, send_buffer, receive_buffer,
}

-- The buffer with what the code has put in front, and its other bytes behind.
abbrev pub at : {S : Type 0} → S → List ℕ → List ℕ → Session S
at sfd front rest = record { sfd = sfd; buffer = front ++ rest }

-- A text as the program sends it.
abbrev pub text_bytes : List ℕ → List ℕ
text_bytes text = be16 (length text + 1) ++ (text ++ 0 ∷ [])

pub length-text_bytes : (text : List ℕ) → length (text_bytes text) ≡ length text + 3
length-text_bytes text = omega (arith, length-append text (0 ∷ []))

module _ {S : Type 0} where
  pub write-front :
      (sfd : S) (front bytes rest : List ℕ) (pos : ℕ)
      → pos ≡ length front
      → length bytes ≤ length rest
      → write pos bytes (at sfd front rest)
        ≡ done (at sfd (front ++ bytes) (drop (length bytes) rest))
  unfolding write
  write-front sfd front bytes rest pos p h =
      let fits : ltb (length (front ++ rest)) (length front + length bytes) ≡ false =
        le→ltb _ _ (omega (arith, length-append front rest)) in
      rw (p, fits, take-append front rest, drop-append_add front rest (length bytes))
        (ap (λ b. done (record { sfd = sfd; buffer = b }))
          (sym (append_assoc front bytes (drop (length bytes) rest))))

  pub write_fault :
      (pos : ℕ) (bytes : List ℕ) (s : Session S)
      → length s.buffer < pos + length bytes
      → write pos bytes s ≡ fault
  unfolding write
  write_fault pos bytes s h = rw (lt→ltb _ _ h)

  pub write_text-front :
      (sfd : S) (front text rest : List ℕ) (pos end : ℕ)
      → pos ≡ length front
      → end ≡ pos + 3 + length text
      → length text + 3 ≤ length rest
      → length text < 0xffff
      → (rest' : List ℕ) × (length rest' + (length text + 3) ≡ length rest)
        × (write_text pos text (at sfd front rest)
            ≡ done (end, at sfd (front ++ text_bytes text) rest'))
  unfolding write_text
  write_text-front sfd front text rest pos end p z h b =
      let size : (length text + 1) % 2 ^ 16 ≡ length text + 1 = omega arith in
      let tail = text ++ 0 ∷ [] in
      let len : length tail ≡ length text + 1 = omega (arith, length-append text (0 ∷ [])) in
      let rest1 = drop 2 rest in
      let l1 : length rest1 ≡ length rest - 2 = length-drop 2 rest in
      let rest2 = drop (length tail) rest1 in
      let where_to : pos + 2 + (length text + 1) ≡ end = omega arith in
      let first = write-front sfd front (be16 (length text + 1)) rest pos p (omega arith) in
      let second =
        write-front sfd (front ++ be16 (length text + 1)) tail rest1 (pos + 2)
          (omega (arith, length-append front (be16 (length text + 1)))) (omega arith) in
      (
        rest2,
        omega (arith, length-drop (length tail) rest1),
        rw (size, le16-htons (length text + 1) [], first, second, where_to)
            (ap (λ f. done (end, at sfd f rest2))
              (append_assoc front (be16 (length text + 1)) tail)),
      )

module _ {S : Type 0} (socket : Socket S) (laws : Delivers socket) (apart : Separate socket) where
  -- What was put in front of the buffer goes out.
  pub send_buffer-front :
      (n code size : ℕ) (sfd : S) (front rest : List ℕ)
      → size ≡ length front
      → 0 < size
      → size ≤ n
      → (sfd' : S) × (send_buffer socket n code size (at sfd front rest)
          ≡ done (at sfd' front rest))
        × (socket.outgoing sfd' ≡ socket.outgoing sfd ++ front)
        × (socket.incoming sfd' ≡ socket.incoming sfd)
  unfolding send_buffer
  send_buffer-front n code size sfd front rest p pos fuel =
      let fits : ltb (length (front ++ rest)) (length front) ≡ false =
        le→ltb _ _ (omega (arith, length-append front rest)) in
      let (sfd', r, o) = transmit-all socket laws n front sfd (omega arith) (omega arith) in
      (
        sfd',
        rw (p, fits, take-append front rest, r) refl,
        o,
        transmit-incoming socket apart n front sfd sfd' r,
      )

  -- The next bytes of the server come to lie in front.
  pub receive_buffer-front :
      (n code size : ℕ) (s : Session S) (bytes rest : List ℕ)
      → size ≡ length bytes
      → 0 < size
      → size ≤ n
      → size ≤ length s.buffer
      → socket.incoming s.sfd ≡ bytes ++ rest
      → (sfd' : S) × (receive_buffer socket n code size s
          ≡ done (at sfd' bytes (drop size s.buffer)))
        × (socket.incoming sfd' ≡ rest)
        × (socket.outgoing sfd' ≡ socket.outgoing s.sfd)
  unfolding receive_buffer
  receive_buffer-front n code size s bytes rest p pos fuel fits e =
      let (sfd', r, i) =
        receive-next socket laws n bytes rest s.sfd (omega arith) (omega arith) e in
      (
        sfd',
        rw (le→ltb (length s.buffer) size fits, p, r) refl,
        i,
        receive-outgoing socket apart n (length bytes) bytes s.sfd sfd' r,
      )

module _ {S : Type 0} where
  -- A session is its buffer cut in two.
  pub cut_at : (k : ℕ) (s : Session S) → s ≡ at s.sfd (take k s.buffer) (drop k s.buffer)
  cut_at k s = ap (λ b. record { sfd = s.sfd; buffer = b }) (sym (take-drop k s.buffer))

  -- The bytes that were left out in front are written last.
  pub write-over :
      (sfd : S) (old bytes body rest : List ℕ)
      → length old ≡ length bytes
      → write 0 bytes (at sfd (old ++ body) rest) ≡ done (at sfd (bytes ++ body) rest)
  unfolding write
  write-over sfd old bytes body rest p =
      let all = old ++ (body ++ rest) in
      let fits : ltb (length all) (0 + length bytes) ≡ false =
        le→ltb _ _ (omega (arith, length-append old (body ++ rest))) in
      let behind : drop (0 + length bytes) all ≡ body ++ rest =
        ap (λ k. drop k all) (omega arith) ∙ drop-append old (body ++ rest) in
      rw (append_assoc old body rest, fits, behind)
        (ap (λ b. done (record { sfd = sfd; buffer = b })) (sym (append_assoc bytes body rest)))

  -- Two texts, from the third byte of the buffer on.
  pub two_texts :
      (s : Session S) (a b : List ℕ)
      → length s.buffer ≡ 1524
      → length a + length b + 8 ≤ 1524
      → (mid rest : List ℕ) × (write_text 2 a s
          ≡ done (5 + length a, at s.sfd (take 2 s.buffer ++ text_bytes a) mid))
        × (write_text (5 + length a) b (at s.sfd (take 2 s.buffer ++ text_bytes a) mid)
            ≡ done (
              8 + length a + length b,
              at s.sfd (take 2 s.buffer ++ (text_bytes a ++ text_bytes b)) rest,
            ))
        × (length rest + (length a + length b + 8) ≡ 1524)
  two_texts s a b full h =
      let two = length-take 2 s.buffer (omega arith) in
      let front = take 2 s.buffer in
      let behind = length-drop 2 s.buffer in
      let (mid, lm, first) =
        write_text-front s.sfd front a (drop 2 s.buffer) 2 (5 + length a) (sym two) (omega arith)
          (omega arith) (omega arith) in
      let (rest, lr, second) =
        write_text-front s.sfd (front ++ text_bytes a) b mid (5 + length a)
          (8 + length a + length b)
          (omega (arith, length-append front (text_bytes a), length-text_bytes a)) (omega arith)
          (omega arith) (omega arith) in
      (
        mid,
        rest,
        ap (write_text 2 a) (cut_at 2 s) ∙ first,
        second
            ∙ ap (λ f. done (8 + length a + length b, at s.sfd f rest))
                (append_assoc front (text_bytes a) (text_bytes b)),
        omega arith,
      )
