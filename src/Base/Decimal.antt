-- ===== src/Base/Decimal.antt =====
-- `to_string` on unsigned integers.
use Prim.Native.Nat.{ℕ, zero, suc, ◌+◌, ◌/◌, ◌%◌}
use mathlib.Core.List.{[], ◌∷◌, ◌++◌}
use burble.Base.Tests.{ltb, if◌then◌else◌}
use burble.Base.Text.{Str}

-- A number has at most as many digits as its value, or one.
unfoldable pub digits : (fuel n : ℕ) → Str
digits zero n = (48 + n) ∷ []
digits (suc fuel) n =
    let more = digits fuel (n / 10) ++ (48 + n % 10) ∷ [] in
    if ltb n 10 then (48 + n) ∷ [] else more

unfoldable pub to_string : ℕ → Str
unfolding digits
to_string n = digits n n
