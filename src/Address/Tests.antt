-- ===== src/Address/Tests.antt =====
-- Runs of the conversions, and the theorems on them at concrete addresses.
use resilient_overlay_networ.Base.Texts.{codes}
use resilient_overlay_networ.Base.{ℕ, ◌≡◌, refl, List, some, arith}
use resilient_overlay_networ.Address.{
  ip_into_uint, ip_into_uint_loop, char_digit, ip_uint_into_str, part_loop, fill_parts, join_parts,
}
use resilient_overlay_networ.Address.Print.{ip_into_uint-ip_uint_into_str}

ip_into_uint_runs : ip_into_uint (codes "10.20.0.255") ≡ 0x0a1400ff
unfolding ip_into_uint ip_into_uint_loop char_digit
ip_into_uint_runs = refl

ip_uint_into_str_runs : ip_uint_into_str 0x0a1400ff ≡ some (codes "10.20.0.255")
unfolding ip_uint_into_str part_loop fill_parts join_parts
ip_uint_into_str_runs = refl

ip_uint_into_str_leading_dot : ip_uint_into_str 5 ≡ some (codes "...5")
unfolding ip_uint_into_str part_loop fill_parts join_parts
ip_uint_into_str_leading_dot = refl

ip_into_uint-ip_uint_into_str_example :
    (text : List ℕ) × (ip_uint_into_str 0xc0a80007 ≡ some text) × (ip_into_uint text ≡ 0xc0a80007)
ip_into_uint-ip_uint_into_str_example = ip_into_uint-ip_uint_into_str 0xc0a80007 (omega arith)
