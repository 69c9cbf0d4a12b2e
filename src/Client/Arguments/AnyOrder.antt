-- ===== src/Client/Arguments/AnyOrder.antt =====
-- Complete arguments are read alike in every order.
use resilient_overlay_networ.Base.{ℕ, ◌≡◌, refl, ◌∙◌, List, [], ◌∷◌, true, false, All, arith}
use resilient_overlay_networ.Client.Arguments.{
  Settings, blank, Marks, no_marks, Field, ip_field, port_field, map_field, user_field, pass_field,
  id_field, node_field, valued, bare, minus_one, flag_of, settled, marked, mark, store,
  argument_loop, parse_arguments,
}
use resilient_overlay_networ.Client.Arguments.Options.{
  Opt, given, new_map, free_map, name, written, slot, uses, Agrees, Complete,
}
use resilient_overlay_networ.Client.Arguments.Progress.{
  Once, Holds, Once-mark, Named, Named-mark, put, Holds-put, settle,
}

flag_of-name : (f : Field) → flag_of (name f) ≡ valued f
unfolding flag_of
flag_of-name ip_field = refl
flag_of-name port_field = refl
flag_of-name map_field = refl
flag_of-name user_field = refl
flag_of-name pass_field = refl
flag_of-name id_field = refl
flag_of-name node_field = refl

store-Agrees :
    (t : Settings) (f : Field) (v : List ℕ) (s : Settings)
    → Agrees t (given f v)
    → store f v s ≡ settled (put t (given f v) s)
unfolding store
store-Agrees t ip_field v s a = rw (store, a) refl
store-Agrees t port_field v s a = rw (store, a) refl
store-Agrees t map_field v s a = refl
store-Agrees t user_field v s a = refl
store-Agrees t pass_field v s a = refl
store-Agrees t id_field v s a = refl
store-Agrees t node_field v s a = refl

loop-given :
    (t : Settings) (f : Field) (v : List ℕ) (rest : List (List ℕ)) (m : Marks) (s : Settings)
    → Agrees t (given f v)
    → marked f m ≡ false
    → argument_loop (name f ∷ v ∷ rest) m s ≡ argument_loop rest (mark f m) (put t (given f v) s)
unfolding argument_loop
loop-given t f v rest m s a free =
    rw (argument_loop, flag_of-name f, free, store-Agrees t f v s a) refl

loop-bare :
    (arg : List ℕ) (need : ℕ) (rest : List (List ℕ)) (m : Marks) (s : Settings)
    → flag_of arg ≡ bare need
    → m.creator ≡ false
    → argument_loop (arg ∷ rest) m s
      ≡ argument_loop rest (record m { creator = true }) (record s { need_new_map = need })
unfolding argument_loop
loop-bare arg need [] m s e free = rw (argument_loop, e, free) refl
loop-bare arg need (value ∷ rest) m s e free = rw (argument_loop, e, free) refl

loop-one :
    (t : Settings) (o : Opt) (os : List Opt) (m : Marks) (s : Settings)
    → Agrees t o
    → marked (slot o) m ≡ false
    → argument_loop (written (o ∷ os)) m s
      ≡ argument_loop (written os) (mark (slot o) m) (put t o s)
loop-one t (given f v) os m s a free = loop-given t f v (written os) m s a free
loop-one t new_map os m s a free = loop-bare _ 1 (written os) m s (unfold flag_of in refl) free
loop-one t free_map os m s a free =
    loop-bare _ minus_one (written os) m s (unfold flag_of in refl) free

loop-settled :
    (t : Settings) (os : List Opt) (m : Marks) (s : Settings)
    → All (Agrees t) os
    → Once m os
    → Named t m os
    → Holds t m s
    → argument_loop (written os) m s ≡ settled t
unfolding argument_loop
loop-settled t [] m s a h node i = settle t s m h node i
loop-settled t (o ∷ os) m s (a, rest) h node i =
    let (free, h') = Once-mark o os m h in
    let i' = Holds-put t o m s a free i in
    loop-one t o os m s a free
    ∙ loop-settled t os (mark (slot o) m) (put t o s) rest h' (Named-mark t o os m node) i'

-- Options that take each of the six mandatory marks once, and that of the node at most once, are read
-- as the settings that all their values agree with, in whatever order they stand. Without a node its
-- name is empty; with `--new` or `--free` so is the creator.
pub parse_arguments-written :
    (t : Settings) (os : List Opt)
    → All (Agrees t) os
    → Complete os
    → (uses node_field os ≡ 0 → t.node_name ≡ [])
    → parse_arguments (written os) ≡ settled t
unfolding parse_arguments
parse_arguments-written t os a c node =
    loop-settled t os no_marks blank a (omega arith) (λ z. node (omega arith))
      (record {
        ip_holds = refl;
        port_holds = refl;
        map_holds = refl;
        user_holds = refl;
        pass_holds = refl;
        creator_holds = refl;
        need_holds = refl;
        node_holds = refl;
      })
