-- ===== src/Client/Transfer/Complete.antt =====
-- What `sendOrReceive` moves, given what the system promises of `send` and `recv`.
use resilient_overlay_networ.Base.{
  length-drop, take-drop, take-length, ℕ, zero, suc, ◌+◌, ◌-◌, ◌≤◌, ◌<◌, ◌≡◌, refl, sym, ap, ◌∙◌,
  List, [], ◌∷◌, ◌++◌, some, ltb, true, false, length, take, drop, drop, arith, inl, inr,
  Bool-cases, ltb→lt, lt→ltb, le→ltb, length-append,
}
use mathlib.Core.List.{append-nil, append_assoc}
use resilient_overlay_networ.Client.Transfer.{
  Socket, received, running, transmitted, behind, receive, transmit,
}

-- `recv` gives at least one and at most `size` of the next bytes, while there are any; `send` takes
-- at least one byte of those it is given, and appends what it takes to what was sent.
pub record Delivers {S : Type 0} (socket : Socket S) : Type 0 where
  pub recv_some :
      (s : S) (size : ℕ)
      → 0 < size
      → 0 < length (socket.incoming s)
      → (b : ℕ) × (bytes : List ℕ) × (s' : S) × (socket.recv s size ≡ some (b ∷ bytes, s'))
        × (length bytes < size)
        × (socket.incoming s ≡ b ∷ bytes ++ socket.incoming s')
  pub send_some :
      (s : S) (buf : List ℕ)
      → 0 < length buf
      → (count : ℕ) × (s' : S) × (socket.send s buf ≡ some (count, s'))
        × (0 < count)
        × (count ≤ length buf)
        × (socket.outgoing s' ≡ socket.outgoing s ++ take count buf)

-- The connection was closed by the other side: `recv` gives no byte, and stays so.
abbrev pub IsClosed : {S : Type 0} → Socket S → S → Type 0
IsClosed socket s = (size : ℕ) → socket.recv s size ≡ some ([], s)

-- A first piece that is no longer than the bytes asked for leaves the rest of them.
cut :
    (xs ys bytes rest : List ℕ)
    → length xs ≤ length bytes
    → xs ++ ys ≡ bytes ++ rest
    → (more : List ℕ) × (bytes ≡ xs ++ more) × (ys ≡ more ++ rest)
cut [] ys bytes rest h e = (bytes, refl, e)
cut (x ∷ xs) ys [] rest h e = absurd (omega arith)
cut (x ∷ xs) ys (y ∷ bytes) rest h e =
    let (more, p, q) = cut xs ys bytes rest (omega arith) (cc) in (more, cc, q)

module _ {S : Type 0} (socket : Socket S) (laws : Delivers socket) where
  receive-piece :
      (n : ℕ) (bytes bs more rest : List ℕ) (s s' : S)
      → bytes ≡ bs ++ more
      → socket.recv s (length bytes) ≡ some (bs, s')
      → socket.incoming s' ≡ more ++ rest
      → (0 < length more
          → (s'' : S) × (receive socket n (length more) s' ≡ received more s'')
            × (socket.incoming s'' ≡ rest))
      → (s'' : S) × (receive socket (suc n) (length bytes) s ≡ received bytes s'')
        × (socket.incoming s'' ≡ rest)
  unfolding receive behind
  receive-piece n bytes bs [] rest s s' p e i next =
      let whole : bytes ≡ bs = p ∙ append-nil bs in
      let full : ltb (length bs) (length bytes) ≡ false =
        le→ltb (length bs) (length bytes) (omega (arith, ap length whole)) in
      (s', rw (receive, e, full) (ap (λ t. received t s') (sym whole)), i)
  receive-piece n bytes bs (x ∷ more) rest s s' p e i next =
      let (s'', r, j) = next (omega arith) in
      let sum : length bytes ≡ length bs + suc (length more) =
        ap length p ∙ length-append bs (x ∷ more) in
      let short : ltb (length bs) (length bytes) ≡ true =
        lt→ltb (length bs) (length bytes) (omega (arith, sum)) in
      let left : length bytes - length bs ≡ length (x ∷ more) = omega (arith, sum) in
      (s'', rw (receive, e, short, left, r) (ap (λ t. received t s'') (sym p)), j)

  -- On a socket that gives at least one of the next bytes in each call, `sendOrReceive` reads
  -- exactly the next `size` bytes, however the system cuts them up: for a size that is not zero and
  -- no more than the bytes that arrive, with one call of `recv` allowed for each byte.
  pub receive-next :
      (n : ℕ) (bytes rest : List ℕ) (s : S)
      → length bytes ≤ n
      → 0 < length bytes
      → socket.incoming s ≡ bytes ++ rest
      → (s' : S) × (receive socket n (length bytes) s ≡ received bytes s')
        × (socket.incoming s' ≡ rest)
  receive-next zero bytes rest s h p e = absurd (omega arith)
  receive-next (suc n) bytes rest s h p e =
      let (b, bs, s', r, l, i) =
        laws.recv_some s (length bytes) p (rw e (omega (arith, length-append bytes rest))) in
      let (more, p', q) = cut (b ∷ bs) (socket.incoming s') bytes rest (omega arith) (sym i ∙ e) in
      let (s'', got, j) = receive-piece n bytes (b ∷ bs) more rest s s' p' r q λ pos.
        receive-next n more rest s' (omega (arith, ap length p', length-append bs more)) pos q in
      (s'', got, j)

  -- On a socket that takes at least one byte in each call, `sendOrReceive` sends all bytes of a
  -- buffer that is not empty, in order and once, with one call of `send` allowed for each byte.
  pub transmit-all :
      (n : ℕ) (buf : List ℕ) (s : S)
      → length buf ≤ n
      → 0 < length buf
      → (s' : S) × (transmit socket n buf s ≡ transmitted s')
        × (socket.outgoing s' ≡ socket.outgoing s ++ buf)
  unfolding transmit
  transmit-all zero buf s h p = absurd (omega arith)
  transmit-all (suc n) buf s h p =
      let (count, s', e, pos, le, o) = laws.send_some s buf p in
      elim (Bool-cases (ltb count (length buf))) [
        | inl short ↦
            let lt = ltb→lt count (length buf) short in
            let rest = length-drop count buf in
            let (s'', r, o') = transmit-all n (drop count buf) s' (omega arith) (omega arith) in
            (
              s'',
              rw (transmit, e, short) r,
              o'
                  ∙ ap (λ t. t ++ drop count buf) o
                  ∙ append_assoc (socket.outgoing s) (take count buf) (drop count buf)
                  ∙ ap (λ t. socket.outgoing s ++ t) (take-drop count buf),
            )
        | inr full ↦
            let all : count ≡ length buf = ground arith in
            (
              s',
              rw (transmit, e, full) refl,
              o
                  ∙ ap (λ k. socket.outgoing s ++ take k buf) all
                  ∙ ap (λ t. socket.outgoing s ++ t) (take-length buf),
            )
      ]

-- Once the other side has closed the connection, `recv` gives no byte and no error: the loop runs for
-- ever, for any number of calls and any size but zero.
pub receive-closed :
    {S : Type 0} (socket : Socket S) (s : S) (n size : ℕ)
    → IsClosed socket s
    → 0 < size
    → receive socket n size s ≡ running
unfolding receive behind
receive-closed socket s zero size h p = refl
receive-closed socket s (suc n) size h p =
    rw (receive, h size, lt→ltb 0 size p)
      (ap (behind []) (receive-closed socket s n (size - 0) h (omega arith)))
