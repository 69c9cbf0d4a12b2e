-- ===== src/Servers/Ping/Bounded.antt =====
-- The ping counters leave the known servers as they are.
use resilient_overlay_networ.Base.{
  ℕ, zero, suc, ◌+◌, ◌≡◌, sym, some, Bool, true, false, if◌then◌else◌, bind_some, get_elem?, arith,
}
use resilient_overlay_networ.Servers.{IpInfo, ServerInformation, Rates, Table, elapsed_ms}
use resilient_overlay_networ.Servers.Ping.{
  update_server_information, check_entry, check_connections_is_alive, answer_entry, is_answered,
  answer, receive_loop, receive_ping_packet,
}
use resilient_overlay_networ.Servers.Bounded.{
  Extends, Extends-self, Extends-then, modify-Extends, for_first-Extends,
  update_learning_table-Extends,
}

module _ {R : Type 0} (r : Rates R) where
  pub update_server_information-ip :
      (gateway : IpInfo) (now : ℕ) (s : ServerInformation R)
      → (update_server_information r gateway now s).ip.uint ≡ s.ip.uint
  unfolding update_server_information
  update_server_information-ip gateway now s = ground arith

  answer_entry-ip :
      (time : ℕ) (s : ServerInformation R) → (answer_entry r time s).ip.uint ≡ s.ip.uint
  unfolding answer_entry
  answer_entry-ip time s = ground arith

  check_entry-ip : (s : ServerInformation R) → (check_entry r s).ip.uint ≡ s.ip.uint
  unfolding check_entry
  check_entry-ip s = ground arith

  pub check_connections_is_alive-Extends :
      (t : Table R) → Extends t (check_connections_is_alive r t)
  unfolding check_connections_is_alive
  check_connections_is_alive-Extends t =
      for_first-Extends t t.number_of_servers (check_entry r) check_entry-ip

  answer-Extends :
      (i : ℕ) (s : ServerInformation R) (now : ℕ) (t t' : Table R)
      → answer r i s now t ≡ some t'
      → Extends t t'
  unfolding answer
  answer-Extends i s now t t' e =
      let f = answer_entry r (elapsed_ms now s.ping_send_time) in
      let changed = modify-Extends t i f (answer_entry-ip (elapsed_ms now s.ping_send_time)) in
      Extends-then changed (update_learning_table-Extends r _ t' _ _ _ _ e)

  answered-Extends :
      (b : Bool) (i : ℕ) (s : ServerInformation R) (now : ℕ) (t t' : Table R)
      → (if b then answer r i s now t else some t) ≡ some t'
      → Extends t t'
  answered-Extends true i s now t t' e = answer-Extends i s now t t' e
  answered-Extends false i s now t t' e = let same : t ≡ t' = cc in rw (sym same) (Extends-self t)

  receive_loop-Extends :
      (n i ip now sequence_id : ℕ) (t t' : Table R)
      → receive_loop r n i ip now sequence_id t ≡ some t'
      → Extends t t'
  unfolding receive_loop
  receive_loop-Extends zero i ip now sequence_id t t' e =
      let same : t ≡ t' = cc in rw (sym same) (Extends-self t)
  receive_loop-Extends (suc n) i ip now sequence_id t t' e =
      let (s, at, e') = bind_some (get_elem? t.server_infoes i) _ e in
      let (t1, at1, e'') =
        bind_some (if is_answered r ip sequence_id s then answer r i s now t else some t) _ e' in
      Extends-then (answered-Extends (is_answered r ip sequence_id s) i s now t t1 at1)
        (receive_loop-Extends n (i + 1) ip now sequence_id t1 t' e'')

  pub receive_ping_packet-Extends :
      (ip now sequence_id : ℕ) (t t' : Table R)
      → receive_ping_packet r ip now sequence_id t ≡ some t'
      → Extends t t'
  unfolding receive_ping_packet
  receive_ping_packet-Extends ip now sequence_id t t' e =
      receive_loop-Extends t.number_of_servers 0 ip now sequence_id t t' e
