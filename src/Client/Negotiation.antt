-- ===== src/Client/Negotiation.antt =====
-- The negotiations of base/cf.cpp before the simulation: signing in, the selection of a map and a
-- node, the interfaces and the custom information, and the start. All work in the shared buffer.
pub mod Reading
pub mod Requests
pub mod Map
pub mod Node
pub mod Information
pub mod Synchronized
pub mod Whole
mod Tests
use resilient_overlay_networ.Base.{
  ℕ, zero, suc, ◌+◌, ◌-◌, ◌*◌, ◌%◌, ◌^◌, List, [], ◌∷◌, ◌++◌, Option, none, some, Bool, true, false,
  not, ◌==◌, ◌||◌, ltb, leb, if◌then◌else◌, length, get_elem?,
}
use resilient_overlay_networ.Base
use resilient_overlay_networ.Base.Texts.{codes, same_text, c_text}
use resilient_overlay_networ.Wire.{Mac}
use resilient_overlay_networ.Wire.Order.{htons, htonl, le16, le32}
use resilient_overlay_networ.Client.Arguments.{Settings}
use resilient_overlay_networ.Client.Transfer.{Socket}
use resilient_overlay_networ.Client.Events.{frame_buffer_size}
use resilient_overlay_networ.Client.Machine.{
  Machine, new_machine, init_interface, set_custom_information,
}
use resilient_overlay_networ.Client.Session.{
  Session, Outcome, done, refused, exited, fault, ◌>>=◌, or_fault, write, write_text, word16,
  word32, send_buffer, receive_buffer, ask,
}

-- The answer to the selection of a map, behind its type.
unfoldable pub map_verdict : {A : Type 0} → ℕ → A → Outcome A
map_verdict c2 a =
    if c2 == 0
    then refused 5
    else if c2 == 1
    then refused 6
    else if c2 == 2
    then done a
    else if c2 == 6
    then refused 0
    else if c2 == 5
    then refused 7
    else refused 8

-- The answer to the selection of a node.
unfoldable pub node_verdict : {A : Type 0} → ℕ → A → Outcome A
node_verdict c2 a = if c2 == 3 then refused 12 else if c2 == 4 then done a else refused 13

-- `if (needNewMap != 0) creatorId = userName;`
unfoldable pub own_map : Settings → Settings
own_map settings =
    if settings.need_new_map == 0
    then settings
    else record settings { creator_id = settings.user_name }

-- The two types of interface that are known.
abbrev pub ethernet_interface : List ℕ
ethernet_interface = codes "edu::sharif::partov::nse::map::interface::EthernetInterface"

abbrev pub ethernet_physical_interface : List ℕ
ethernet_physical_interface =
    codes "edu::sharif::partov::nse::map::interface::EthernetPhysicalInterface"

unfoldable pub is_known : List ℕ → Option Bool
is_known memory =
    Base.◌>>=◌ (same_text ethernet_interface memory)
      λ ethernet. if ethernet then some true else same_text ethernet_physical_interface memory

-- `uint64 mac`, of which an interface keeps the first six bytes in memory.
unfoldable pub read_mac : ℕ → List ℕ → Option Mac
read_mac pos m = Base.◌>>=◌ (get_elem? m pos) λ b0. Base.◌>>=◌ (get_elem? m (pos + 1)) λ b1.
    Base.◌>>=◌ (get_elem? m (pos + 2)) λ b2. Base.◌>>=◌ (get_elem? m (pos + 3)) λ b3.
      Base.◌>>=◌ (get_elem? m (pos + 4)) λ b4. Base.◌>>=◌ (get_elem? m (pos + 5)) λ b5.
        Base.◌>>=◌ (get_elem? m (pos + 6)) λ b6.
          Base.◌>>=◌ (get_elem? m (pos + 7))
            λ b7. some (record { b0 = b0; b1 = b1; b2 = b2; b3 = b3; b4 = b4; b5 = b5 })

module _ {S : Type 0} (socket : Socket S) (n : ℕ) where
  -- The first two words of an answer.
  unfoldable pub answer : ℕ → Session S → Outcome (ℕ × ℕ × Session S)
  answer code s = do
    s' ← receive_buffer socket n code 8 s
    c1 ← word32 0 s'
    c2 ← word32 4 s'
    done (c1, c2, s')

  unfoldable pub do_signing_in_negotiations : Settings → Session S → Outcome (Session S)
  do_signing_in_negotiations settings s =
      if ltb 20 (length settings.user_name) || ltb 50 (length settings.password)
      then refused 0
      else do
        (pos, s1) ← write_text 2 settings.user_name s
        (end, s2) ← write_text pos settings.password s1
        s3 ← write 0 (le16 (htons (end - 2)) []) s2
        s4 ← send_buffer socket n 40 end s3
        (c1, c2, s5) ← answer 41 s4
        if not (c1 == 0) || not (c2 == 1) then refused 42 else done s5

  unfoldable pub do_map_selecting_negotiations :
      Settings → Session S → Outcome (Settings × Session S)
  unfolding own_map
  do_map_selecting_negotiations settings s =
      let mine = own_map settings in
      if ltb frame_buffer_size (3 * 2 + length mine.map_name + length mine.creator_id + 4)
      then refused 0
      else do
        (pos, s1) ← write_text 2 mine.map_name s
        (pos', s2) ← write_text pos mine.creator_id s1
        s3 ← write pos' (le32 (htonl mine.need_new_map) []) s2
        let size = pos' + 4
        s4 ← write 0 (le16 (htons (size - 2)) []) s3
        s5 ← send_buffer socket n 2 size s4
        (c1, c2, s6) ← answer 3 s5
        if not (c1 == 1) then refused 4 else map_verdict c2 (mine, s6)

  unfoldable pub do_node_selecting_negotiations : Settings → Session S → Outcome (Session S)
  do_node_selecting_negotiations settings s = if length settings.node_name == 0 then exited else do
    let ms = (length settings.node_name + 1) % 2 ^ 32
    s1 ← write 0 (le16 (htons ms) []) s
    if ltb (frame_buffer_size - 2) ms then refused 0 else do
      s2 ← write 2 (settings.node_name ++ 0 ∷ []) s1
      s3 ← send_buffer socket n 9 (2 + ms) s2
      (c1, c2, s4) ← answer 10 s3
      if not (c1 == 1) then refused 11 else node_verdict c2 s4

  -- Without 16 bytes behind the name the position of these lies in front of the buffer.
  unfoldable pub read_interface_information :
      Machine → ℕ → Session S → Outcome (Machine × Session S)
  read_interface_information m index s = do
    s1 ← receive_buffer socket n 17 2 s
    size ← word16 0 s1
    if ltb frame_buffer_size size then refused 18 else do
      s2 ← receive_buffer socket n 19 size s1
      known ← or_fault (is_known s2.buffer)
      if not known then refused 19 else if ltb size 16 then fault else do
        mac ← or_fault (read_mac (size - 16) s2.buffer)
        ip ← word32 (size - 8) s2
        mask ← word32 (size - 4) s2
        done (init_interface m index mac ip mask, s2)

  -- The loop over the interfaces, from `index` on.
  unfoldable pub read_interfaces : ℕ → ℕ → Machine → Session S → Outcome (Machine × Session S)
  read_interfaces zero index m s = done (m, s)
  read_interfaces (suc count) index m s =
      read_interface_information m index s >>= λ (m', s'). read_interfaces count (suc index) m' s'

  unfoldable pub do_interfaces_information_synchronization_negotiations :
      Session S → Outcome (Machine × Session S)
  do_interfaces_information_synchronization_negotiations s = do
    s1 ← ask socket n 0 14 15 12 s
    c1 ← word32 0 s1
    c2 ← word32 4 s1
    count ← word32 8 s1
    if not (c1 == 2) || (not (c2 == 1) || (ltb count 1 || leb (2 ^ 31) count))
        then refused 16
        else read_interfaces count 0 (new_machine count) s1

  unfoldable pub do_custom_information_synchronization_negotiations :
      Machine → Session S → Outcome (Machine × Session S)
  do_custom_information_synchronization_negotiations m s = do
    s1 ← ask socket n 1 20 21 10 s
    c1 ← word32 0 s1
    c2 ← word32 4 s1
    size ← word16 8 s1
    if not (c1 == 2) || (not (c2 == 2) || ltb size 1) then refused 22 else do
      s2 ← receive_buffer socket n 23 size s1
      ci ← or_fault (c_text s2.buffer)
      done (set_custom_information m ci, s2)

  unfoldable pub do_information_synchronization_negotiations :
      Session S → Outcome (Machine × Session S)
  do_information_synchronization_negotiations s =
      do_interfaces_information_synchronization_negotiations s >>= λ (m, s').
      do_custom_information_synchronization_negotiations m s'

  unfoldable pub do_initial_recovery_negotiations :
      Settings → Session S → Outcome (Settings × Session S)
  do_initial_recovery_negotiations settings s = do
    s1 ← do_signing_in_negotiations settings s
    (settings', s2) ← do_map_selecting_negotiations settings s1
    s3 ← do_node_selecting_negotiations settings' s2
    done (settings', s3)

  unfoldable pub do_initial_negotiations :
      Settings → Session S → Outcome (Settings × Machine × Session S)
  do_initial_negotiations settings s = do
    s1 ← do_signing_in_negotiations settings s
    (settings', s2) ← do_map_selecting_negotiations settings s1
    s3 ← do_node_selecting_negotiations settings' s2
    (m, s4) ← do_information_synchronization_negotiations s3
    done (settings', m, s4)

  -- The dialog of `startSimulation`, and the same in `announceSimulationResume`.
  unfoldable pub announce_simulation_resume : Session S → Outcome (Session S)
  announce_simulation_resume s = do
    s1 ← ask socket n 2 24 25 4 s
    c ← word32 0 s1
    if not (c == 3) then refused 0 else done s1
