-- ===== src/Base/Words.antt =====
-- String.prototype.trim and toLowerCase on ASCII, `length` and `slice` in UTF-16 units,
-- Number.parseInt in base 10, and Array.prototype.join.
use Prim.Native.Nat.{ℕ, ◌+◌, ◌-◌, ◌*◌}
use Prim.Native.Char.{Char, code}
use Prim.Native.String.{String, char_at, ◌++◌}
use mathlib.Core.Path.{◌≡◌, refl}
use mathlib.Core.Bool.{Bool, true, ◌&&◌, ◌||◌}
use mathlib.Core.Option.{Option, none, some}
use mathlib.Core.List.{List, [], ◌∷◌}
use karya_kram.Base.Tests.{if◌then◌else◌, ltb, leb, nat_beq}

abbrev is_space : Char → Bool
is_space c = nat_beq (code c) 32 || leb 9 (code c) && leb (code c) 13

unfoldable pub trim_start : String → String
trim_start String.[] = ""
trim_start (String.◌∷◌ c s) = let rest = trim_start s in if is_space c then rest else String.◌∷◌ c s

abbrev keep_char : Bool → Char → String → String
keep_char true c String.[] = ""
keep_char _ c s = String.◌∷◌ c s

unfoldable pub trim_end : String → String
trim_end String.[] = ""
trim_end (String.◌∷◌ c s) = keep_char (is_space c) c (trim_end s)

unfoldable pub trim : String → String
unfolding trim_start trim_end
trim s = trim_end (trim_start s)

abbrev lower_char : Char → Char
lower_char c =
    if leb 65 (code c) && leb (code c) 90
    then char_at "abcdefghijklmnopqrstuvwxyz" (code c - 65)
    else c

unfoldable pub to_lower_case : String → String
to_lower_case String.[] = ""
to_lower_case (String.◌∷◌ c s) = String.◌∷◌ (lower_char c) (to_lower_case s)

abbrev units : Char → ℕ
units c = if ltb (code c) 65536 then 1 else 2

unfoldable pub utf16_length : String → ℕ
utf16_length String.[] = 0
utf16_length (String.◌∷◌ c s) = units c + utf16_length s

-- `s.slice(0, n)`; a character that would be cut in two is left out.
unfoldable pub utf16_prefix : ℕ → String → String
utf16_prefix n String.[] = ""
utf16_prefix n (String.◌∷◌ c s) =
    let rest = utf16_prefix (n - units c) s in if leb (units c) n then String.◌∷◌ c rest else ""

abbrev is_digit : Char → Bool
is_digit c = leb 48 (code c) && leb (code c) 57

-- The value of the digits at the front, after `seen`.
unfoldable pub digits_value : Option ℕ → String → Option ℕ
digits_value seen String.[] = seen
digits_value none (String.◌∷◌ c s) =
    let rest = digits_value (some (code c - 48)) s in if is_digit c then rest else none
digits_value (some n) (String.◌∷◌ c s) =
    let rest = digits_value (some (n * 10 + (code c - 48))) s in if is_digit c then rest else some n

abbrev minus : Option ℕ → Option ℕ
minus none = none
minus (some n) = some 0

abbrev signed_value : String → Option ℕ
unfolding digits_value
signed_value String.[] = none
signed_value (String.◌∷◌ c s) =
    if nat_beq (code c) 45
    then minus (digits_value none s)
    else if nat_beq (code c) 43
    then digits_value none s
    else digits_value none (String.◌∷◌ c s)

-- `none` is NaN; a negative number counts as 0.
unfoldable pub parse_int : String → Option ℕ
unfolding trim_start signed_value
parse_int s = signed_value (trim_start s)

unfoldable pub join : String → List String → String
join separator [] = ""
join separator (s ∷ []) = s
join separator (s ∷ t ∷ ts) = s ++ separator ++ join separator (t ∷ ts)

trim_example : to_lower_case (trim " Mock \t") ≡ "mock"
unfolding trim to_lower_case
trim_example = refl

parse_int_example : parse_int " 42px" ≡ some 42
unfolding parse_int
parse_int_example = refl
