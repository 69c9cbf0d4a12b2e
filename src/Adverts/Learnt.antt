-- ===== src/Adverts/Learnt.antt =====
-- An advertisement adds servers to the table, and takes none out of it.
use resilient_overlay_networ.Base.{ℕ, zero, suc, ◌≡◌, sym, List, some, bind_some}
use resilient_overlay_networ.Address.{ip_uint_into_str}
use resilient_overlay_networ.Wire.Order.{ntohl}
use resilient_overlay_networ.Servers.{IpInfo, Rates, Table}
use resilient_overlay_networ.Servers.Bounded.{
  Extends, Extends-self, Extends-then, update_learning_table-Extends,
}
use resilient_overlay_networ.Adverts.{
  Entry, take_entry, rounds, receive_entry, receive_entries, receive_advertise_entries,
}

module _ {R : Type 0} (r : Rates R) where
  receive_entry-Extends :
      (host : IpInfo) (e : Entry) (t t' : Table R)
      → receive_entry r host e t ≡ some t'
      → Extends t t'
  unfolding receive_entry
  receive_entry-Extends host e t t' h =
      let (text, at, h') = bind_some (ip_uint_into_str (ntohl e.ip_server)) _ h in
      update_learning_table-Extends r t t' _ _ _ _ h'

  receive_entries-Extends :
      (n : ℕ) (host : IpInfo) (payload : List ℕ) (t t' : Table R)
      → receive_entries r n host payload t ≡ some t'
      → Extends t t'
  unfolding receive_entries
  receive_entries-Extends zero host payload t t' h =
      let same : t ≡ t' = cc in rw (sym same) (Extends-self t)
  receive_entries-Extends (suc n) host payload t t' h =
      let ((e, rest), at, h') = bind_some (take_entry payload) _ h in
      let (t1, at1, h'') = bind_some (receive_entry r host e t) _ h' in
      Extends-then (receive_entry-Extends host e t t1 at1)
        (receive_entries-Extends n host rest t1 t' h'')

  pub receive_advertise_entries-Extends :
      (payload : List ℕ) (advertise_size ip_src : ℕ) (t t' : Table R)
      → receive_advertise_entries r payload advertise_size ip_src t ≡ some t'
      → Extends t t'
  unfolding receive_advertise_entries
  receive_advertise_entries-Extends payload advertise_size ip_src t t' h =
      let (text, at, h') = bind_some (ip_uint_into_str ip_src) _ h in
      receive_entries-Extends (rounds advertise_size) _ payload t t' h'
