-- ===== src/Base/Shown.antt =====
-- Numbers as `cout` prints them.
use Prim.Native.Nat.{ℕ, zero, suc, ◌+◌, ◌/◌, ◌%◌}
use mathlib.Core.List.{List, [], ◌∷◌}
use resilient_overlay_networ.Base.Tests.{◌==◌, if◌then◌else◌}

-- The last digit in front of `text`, then those before it: twenty are enough for a uint64_t.
unfoldable pub shown_loop : ℕ → ℕ → List ℕ → List ℕ
shown_loop zero n text = text
shown_loop (suc fuel) n text =
    let text' : List ℕ = (b'0' + n % 10) ∷ text in
    let rest = shown_loop fuel (n / 10) text' in if n / 10 == 0 then text' else rest

unfoldable pub shown : ℕ → List ℕ
unfolding shown_loop
shown n = shown_loop 20 n []
