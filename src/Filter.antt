-- ===== src/Filter.antt =====
-- `is_valid_packet` of user/sm.cpp, which decides what `processFrame` looks at. A frame is its length
-- and the memory from its pointer on, which may end before or behind that length; a read outside of
-- this memory gives `none`.
pub mod Accept
pub mod Bounds
pub mod Exact
mod Tests
use resilient_overlay_networ.Base.{
  ℕ, ◌+◌, ◌*◌, ◌/◌, ◌%◌, ◌^◌, List, Option, none, some, Bool, true, false, not, ◌==◌, ◌||◌, ltb,
  if◌then◌else◌, ◌>>=◌, get_elem?, drop,
}
use resilient_overlay_networ.Checksum.{check_sum_ip}
use resilient_overlay_networ.Wire.{Frame, sizeof_eth, udp_size, icmp_size}
use resilient_overlay_networ.Wire.Order.{ntohs, ntohl, read16, read32}

-- `if (test) return false;` in front of the rest of the function.
abbrev pub reject_if : Bool → Option Bool → Option Bool
reject_if true rest = some false
reject_if false rest = rest

-- The tests on an UDP header. The two lengths are compared as signed numbers, so the subtraction of
-- the source is moved to the other side.
unfoldable pub valid_udp : Frame → ℕ → ℕ → Option Bool
valid_udp frame ip_len ip_hl = reject_if (ltb frame.length udp_size) do
  len ← read16 frame.bytes 38
  reject_if (not (ntohs len + 4 * ip_hl == ntohs ip_len)) (some true)

-- The tests on an ICMP header: an echo reply with the payload of this program.
unfoldable pub valid_icmp : Frame → Option Bool
valid_icmp frame = reject_if (ltb frame.length icmp_size) do
  type ← get_elem? frame.bytes 34
  code ← get_elem? frame.bytes 35
  payload ← read32 frame.bytes 42
  reject_if (not (type == 0) || (not (code == 0) || not (ntohl payload == 0x1234_5678))) (some true)

unfoldable pub valid_transport : Frame → ℕ → ℕ → ℕ → Option Bool
valid_transport frame ip_p ip_len ip_hl =
    if ip_p == 17
    then valid_udp frame ip_len ip_hl
    else if ip_p == 1
    then valid_icmp frame
    else some true

unfoldable pub is_valid_packet : Frame → Option Bool
is_valid_packet frame = reject_if (ltb frame.length sizeof_eth) do
  ether_type ← read16 frame.bytes 12
  reject_if (not (ntohs ether_type == 0x800)) (
      reject_if (ltb frame.length (sizeof_eth + sizeof_eth)) do
        ip_len ← read16 frame.bytes 16
        reject_if (not (frame.length == ntohs ip_len + sizeof_eth)) do
          version ← get_elem? frame.bytes 14
          reject_if (not (version / 16 == 4)) do
            sum ← check_sum_ip (drop 14 frame.bytes) (version % 16)
            reject_if (not (sum == 0)) do
              ip_p ← get_elem? frame.bytes 23
              reject_if (not (ip_p == 17 || ip_p == 1))
                  (valid_transport frame ip_p ip_len (version % 16)))
