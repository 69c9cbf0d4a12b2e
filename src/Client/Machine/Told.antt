-- ===== src/Client/Machine/Told.antt =====
-- The server knows every change of an interface.
use resilient_overlay_networ.Base.{
  ℕ, ◌≤◌, ◌≡◌, refl, sym, ap, ◌∙◌, List, [], ◌∷◌, ◌++◌, false, ◌==◌, inl, inr, Bool-cases, Option,
  none, some,
}
use mathlib.Core.List.{append_assoc, append-nil}
use resilient_overlay_networ.Client.Transfer.{Socket}
use resilient_overlay_networ.Client.Transfer.Complete.{Delivers}
use resilient_overlay_networ.Client.Messages.{
  real_notify_change_of_ip_address, real_notify_change_of_netmask,
}
use resilient_overlay_networ.Client.Messages.Sent.{change_bytes, notify-sent}
use resilient_overlay_networ.Client.Machine.{
  Interface, Change, changed, kept, untold, blocked, set_ip, set_mask,
}

-- A call of the node's: a new address or a new mask.
pub data Call : Type 0 where
  ip_to mask_to : ℕ → Call

-- The calls that the server is told of, as they travel; and what it makes of them.
abbrev pub told_bytes : ℕ → List Call → List ℕ
told_bytes index [] = []
told_bytes index (ip_to v ∷ cs) = change_bytes 2 index v ++ told_bytes index cs
told_bytes index (mask_to v ∷ cs) = change_bytes 3 index v ++ told_bytes index cs

abbrev pub replay : List Call → ℕ × ℕ → ℕ × ℕ
replay [] view = view
replay (ip_to v ∷ cs) (ip, mask) = replay cs (v, mask)
replay (mask_to v ∷ cs) (ip, mask) = replay cs (ip, v)

module _ {S : Type 0} (socket : Socket S) (n : ℕ) where
  unfoldable pub call : Call → Interface → S → Change S
  unfolding set_ip set_mask
  call (ip_to v) i s = set_ip socket n v i s
  call (mask_to v) i s = set_mask socket n v i s

  -- One call after the other, while the server can be told.
  unfoldable pub calls : List Call → Interface → S → Option (Interface × S)
  calls [] i s = some (i, s)
  calls (c ∷ cs) i s = elim (call c i s) [
    | changed i' s' ↦ calls cs i' s'
    | kept i' s' ↦ calls cs i' s'
    | untold i' ↦ none
    | blocked ↦ none
  ]

module _ {S : Type 0} (socket : Socket S) (laws : Delivers socket) where
  set_ip-told :
      (n ip : ℕ) (i : Interface) (s : S)
      → 12 ≤ n
      → (i.ip == ip) ≡ false
      → (s' : S) × (set_ip socket n ip i s ≡ changed (record i { ip = ip }) s')
        × (socket.outgoing s' ≡ socket.outgoing s ++ change_bytes 2 i.index ip)
  unfolding set_ip real_notify_change_of_ip_address
  set_ip-told n ip i s fuel e =
      let (s', r, o) = notify-sent socket laws n 2 ip i.index 0 s fuel in (s', rw (e, r) refl, o)

  set_mask-told :
      (n mask : ℕ) (i : Interface) (s : S)
      → 12 ≤ n
      → (i.mask == mask) ≡ false
      → (s' : S) × (set_mask socket n mask i s ≡ changed (record i { mask = mask }) s')
        × (socket.outgoing s' ≡ socket.outgoing s ++ change_bytes 3 i.index mask)
  unfolding set_mask real_notify_change_of_netmask
  set_mask-told n mask i s fuel e =
      let (s', r, o) = notify-sent socket laws n 3 mask i.index 0 s fuel in (s', rw (e, r) refl, o)

  -- Whatever addresses and masks an interface is given, in any order: all calls end, and the changes
  -- that the server was told of, replayed on the address and mask that the interface had, give those
  -- that it has. The socket takes at least one byte in each call, with twelve calls allowed for one
  -- message.
  pub calls-replay :
      (n : ℕ) (cs : List Call) (i : Interface) (s : S)
      → 12 ≤ n
      → (i' : Interface) × (s' : S) × (told : List Call) × (calls socket n cs i s ≡ some (i', s'))
        × (socket.outgoing s' ≡ socket.outgoing s ++ told_bytes i.index told)
        × (replay told (i.ip, i.mask) ≡ (i'.ip, i'.mask))
  unfolding calls call
  calls-replay n [] i s fuel = (i, s, [], refl, sym (append-nil (socket.outgoing s)), refl)
  calls-replay n (ip_to v ∷ cs) i s fuel = elim (Bool-cases (i.ip == v)) [
    | inl e ↦
        let (i', s', told, r, o, p) = calls-replay n cs i s fuel in
        (i', s', told, rw (calls, set_ip, e) r, o, p)
    | inr e ↦
        let (s1, r1, o1) = set_ip-told n v i s fuel e in
        let (i', s', told, r, o, p) = calls-replay n cs (record i { ip = v }) s1 fuel in
        (
          i',
          s',
          ip_to v ∷ told,
          rw (calls, r1) r,
          o
              ∙ ap (λ t. t ++ told_bytes i.index told) o1
              ∙ append_assoc (socket.outgoing s) (change_bytes 2 i.index v)
                  (told_bytes i.index told),
          p,
        )
  ]
  calls-replay n (mask_to v ∷ cs) i s fuel = elim (Bool-cases (i.mask == v)) [
    | inl e ↦
        let (i', s', told, r, o, p) = calls-replay n cs i s fuel in
        (i', s', told, rw (calls, set_mask, e) r, o, p)
    | inr e ↦
        let (s1, r1, o1) = set_mask-told n v i s fuel e in
        let (i', s', told, r, o, p) = calls-replay n cs (record i { mask = v }) s1 fuel in
        (
          i',
          s',
          mask_to v ∷ told,
          rw (calls, r1) r,
          o
              ∙ ap (λ t. t ++ told_bytes i.index told) o1
              ∙ append_assoc (socket.outgoing s) (change_bytes 3 i.index v)
                  (told_bytes i.index told),
          p,
        )
  ]
