-- ===== src/Common/Decimal.antt =====
-- `Display` of an unsigned integer: its decimal digits.
use Prim.Native.Nat.{ℕ, zero, suc, ◌+◌, ◌/◌, ◌%◌}
use mathlib.Core.List.{List, [], ◌∷◌, ◌++◌}
use lurk.Common.Booleans.{ltb, if◌then◌else◌}

-- At most `fuel + 1` digits.
unfoldable digits_of : ℕ → ℕ → List ℕ
digits_of zero n = (b'0' + n % 10) ∷ []
digits_of (suc fuel) n =
    let rest = digits_of fuel (n / 10) in
    if ltb n 10 then (b'0' + n) ∷ [] else rest ++ (b'0' + n % 10) ∷ []

-- A `u16` has at most five digits.
unfoldable pub decimal : ℕ → List ℕ
unfolding digits_of
decimal n = digits_of 4 n
