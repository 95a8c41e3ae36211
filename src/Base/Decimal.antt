-- ===== src/Base/Decimal.antt =====
-- Decimal digits, as a template literal prints a number.
use Prim.Native.Nat.{ℕ, zero, suc, ◌+◌, ◌/◌, ◌%◌}
use Prim.Native.String.{String, slice, ◌++◌}
use mathlib.Core.Path.{◌≡◌, refl}
use karya_kram.Base.Tests.{if◌then◌else◌, ltb}

abbrev digit : ℕ → String
digit d = slice "0123456789" d (d + 1)

-- One digit for each unit of fuel; a number below `10 ^ f` is printed whole.
digits : ℕ → ℕ → String
digits zero n = ""
digits (suc f) n =
    let rest = digits f (n / 10) in if ltb n 10 then digit n else rest ++ digit (n % 10)

-- `${n}`: a number has fewer digits than its value and one.
unfoldable pub decimal : ℕ → String
unfolding digits
decimal n = digits (n + 1) n

decimal_example : decimal 10207 ≡ "10207"
unfolding decimal
decimal_example = refl
