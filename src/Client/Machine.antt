-- ===== src/Client/Machine.antt =====
-- base/machine.cpp and base/interface.cpp: the machine that the client simulates, its interfaces, and
-- the changes of an interface's address and mask. The pointer to the client is the socket.
pub mod Told
mod Tests
use resilient_overlay_networ.Base.{
  ℕ, zero, suc, List, [], ◌∷◌, Bool, true, false, ◌==◌, if◌then◌else◌, set, length, ltb, get_elem?,
  Option, none, some, ◌>>=◌,
}
use resilient_overlay_networ.Wire.{Mac, Ifaces}
use resilient_overlay_networ.Client.Transfer.{Socket}
use resilient_overlay_networ.Client.Messages.{
  Outcome, success, refused, error, pending, real_notify_change_of_ip_address,
  real_notify_change_of_netmask,
}

pub record Interface : Type 0 where
  pub mac : Mac
  pub index : ℕ
  pub ip : ℕ
  pub mask : ℕ

pub record Machine : Type 0 where
  pub custom_info : List ℕ
  pub iface : List Interface

-- The constructor of `Interface`. It leaves `index` as it is; the model takes 0.
abbrev pub blank_interface : Interface
blank_interface = record {
  mac = record { b0 = 0; b1 = 0; b2 = 0; b3 = 0; b4 = 0; b5 = 0 };
  index = 0;
  ip = 0;
  mask = 0;
}

unfoldable pub blank_interfaces : ℕ → List Interface
blank_interfaces zero = []
blank_interfaces (suc count) = blank_interface ∷ blank_interfaces count

unfoldable pub new_machine : ℕ → Machine
unfolding blank_interfaces
new_machine count = record { custom_info = []; iface = blank_interfaces count }

-- `getCountOfInterfaces`
abbrev pub count_of_interfaces : Machine → ℕ
count_of_interfaces m = length m.iface

-- `Machine::initInterface` and `Interface::init`: an index that the machine does not have is passed
-- over.
unfoldable pub init_interface : Machine → ℕ → Mac → ℕ → ℕ → Machine
init_interface m index mac ip mask =
    if ltb index (count_of_interfaces m)
    then record m {
      iface = set m.iface index (record { mac = mac; index = index; ip = ip; mask = mask });
    }
    else m

abbrev pub set_custom_information : Machine → List ℕ → Machine
set_custom_information m info = record m { custom_info = info }

-- What the node of user/sm.cpp reads of its first two interfaces; `none` if it has fewer.
unfoldable pub first_two : Machine → Option Ifaces
first_two m = do
  a ← get_elem? m.iface 0
  b ← get_elem? m.iface 1
  some (record { mac0 = a.mac; ip0 = a.ip; mac1 = b.mac; ip1 = b.ip })

-- How `setIp` and `setMask` end: `true` with the change, `false` where there is nothing to change,
-- `false` because the server could not be told, or still in the transfer.
pub data Change (S : Type 0) : Type 0 where
  changed : Interface → S → Change S
  kept : Interface → S → Change S
  untold : Interface → Change S
  blocked : Change S

module _ {S : Type 0} where
  unfoldable pub after_notice : Interface → Interface → Outcome S → Change S
  after_notice new old (success s sent_bytes) = changed new s
  after_notice new old refused = untold old
  after_notice new old error = untold old
  after_notice new old pending = blocked

  unfoldable pub set_ip : Socket S → ℕ → ℕ → Interface → S → Change S
  unfolding after_notice
  set_ip socket n ip i s =
      if i.ip == ip
      then kept i s
      else after_notice (record i { ip = ip }) i
          (real_notify_change_of_ip_address socket n ip i.index 0 s)

  unfoldable pub set_mask : Socket S → ℕ → ℕ → Interface → S → Change S
  unfolding after_notice
  set_mask socket n mask i s =
      if i.mask == mask
      then kept i s
      else after_notice (record i { mask = mask }) i
          (real_notify_change_of_netmask socket n mask i.index 0 s)
