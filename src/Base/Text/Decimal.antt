-- ===== src/Base/Text/Decimal.antt =====
-- `String(n)` for whole numbers, and `Number.parseInt(s, 10)`.
use scholarmatch_ai.Base.Tests.{◌==◌, ltb, leb, if◌then◌else◌}
use scholarmatch_ai.Base.Text.Trim.{trim_start, is_space}
use Prim.Native.Nat.{ℕ, zero, suc, ◌+◌, ◌-◌, ◌*◌, ◌/◌, ◌%◌}
use mathlib.Core.Bool.{Bool, true, false, ◌&&◌}
use mathlib.Core.Option.{Option, none, some}
use mathlib.Core.List.{List, [], ◌∷◌}

-- The digits of `n` before those that are there; the fuel is one more than the number of digits.
decimal_from : ℕ → ℕ → List ℕ → List ℕ
decimal_from zero n digits = digits
decimal_from (suc fuel) n digits =
    let longer = decimal_from fuel (n / 10) ((n % 10 + 48) ∷ digits) in
    if ltb n 10 then (n + 48) ∷ digits else longer

-- A number below 10^400 has at most 400 digits.
unfoldable pub decimal : ℕ → List ℕ
unfolding decimal_from
decimal n = decimal_from 400 n []

abbrev is_digit : ℕ → Bool
is_digit c = leb b'0' c && leb c b'9'

-- The value of the leading digits, with that of the digits before them; `none` if there is none.
unfoldable pub parse_digits : Option ℕ → List ℕ → Option ℕ
parse_digits value [] = value
parse_digits none (c ∷ s) =
    let rest = parse_digits (some (c - 48)) s in if is_digit c then rest else none
parse_digits (some n) (c ∷ s) =
    let rest = parse_digits (some (n * 10 + (c - 48))) s in if is_digit c then rest else some n

-- A sign (`true` for minus) and a size.
abbrev signed : Bool → Option ℕ → Option (Bool × ℕ)
signed sign none = none
signed sign (some n) = some (sign, n)

abbrev parse_signed : List ℕ → Option (Bool × ℕ)
parse_signed [] = none
parse_signed (c ∷ s) =
    if c == b'-'
    then signed true (parse_digits none s)
    else if c == b'+'
    then signed false (parse_digits none s)
    else signed false (parse_digits none (c ∷ s))

-- `none` for NaN. The number is exact: rounding above 2^53 is left out.
unfoldable pub parse_int : List ℕ → Option (Bool × ℕ)
unfolding parse_digits trim_start is_space
parse_int s = parse_signed (trim_start s)
