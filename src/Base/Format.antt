-- ===== src/Base/Format.antt =====
-- Numbers and quoted strings as packages strconv and fmt print and read them.
use Prim.Native.Nat.{ℕ, zero, suc, ◌+◌, ◌-◌, ◌*◌, ◌/◌, ◌%◌}
use mathlib.Core.Bool.{Bool, true, false, ◌&&◌, ◌||◌}
use mathlib.Core.Option.{Option, none, some}
use mathlib.Core.List.{[], ◌∷◌, ◌++◌, map}
use atlas.Base.Tests.{ltb, leb, ◌==◌, if◌then◌else◌}
use atlas.Base.Int.{ℤ, pos, negsuc}
use atlas.Base.Strings.{Text, bytes}
use atlas.Base.Decimal.{itoa}

-- strconv.Itoa, and `%d` of an int
unfoldable pub itoa_ℤ : ℤ → Text
unfolding itoa
itoa_ℤ (pos n) = itoa n
itoa_ℤ (negsuc n) = b'-' ∷ itoa (suc n)

abbrev pub is_digit : ℕ → Bool
is_digit c = leb b'0' c && leb c b'9'

-- The value of a text of digits, most significant first, after those already read.
unfoldable pub digits_value : ℕ → Text → Option ℕ
digits_value acc [] = some acc
digits_value acc (c ∷ s) =
    let rest = digits_value (acc * 10 + (c - 48)) s in if is_digit c then rest else none

abbrev int_of : (negative : Bool) → ℕ → Option ℤ
int_of false n = if ltb n 9_223_372_036_854_775_808 then some (pos n) else none
int_of true zero = some (pos 0)
int_of true (suc n) = if ltb n 9_223_372_036_854_775_808 then some (negsuc n) else none

number : (negative : Bool) → Text → Option ℤ
unfolding digits_value
number negative [] = none
number negative (c ∷ s) = elim (digits_value 0 (c ∷ s)) [ none ↦ none | some n ↦ int_of negative n ]

-- strconv.Atoi, on a 64-bit int; `none` is its error
unfoldable pub atoi : Text → Option ℤ
unfolding number
atoi [] = none
atoi (c ∷ s) =
    if c == b'-' then number true s else if c == b'+' then number false s else number false (c ∷ s)

-- Why strconv.Atoi refuses a text.
unfoldable pub atoi_error : Text → Text
unfolding digits_value bytes
atoi_error [] = bytes "invalid syntax"
atoi_error (c ∷ s) =
    let unsigned = if c == b'-' || c == b'+' then s else c ∷ s in
    elim unsigned [
      | [] ↦ bytes "invalid syntax"
      | d ∷ ds ↦ elim (digits_value 0 (d ∷ ds)) [
        | none ↦ bytes "invalid syntax"
        | some n ↦ bytes "value out of range"
      ]
    ]

hex_digit : ℕ → ℕ
hex_digit d = if ltb d 10 then 48 + d else 87 + d

escaped : ℕ → Text
unfolding bytes hex_digit
escaped c =
    if c == 34 || c == 92
    then 92 ∷ c ∷ []
    else if c == 7
    then bytes "\\a"
    else if c == 8
    then bytes "\\b"
    else if c == 9
    then bytes "\\t"
    else if c == 10
    then bytes "\\n"
    else if c == 11
    then bytes "\\v"
    else if c == 12
    then bytes "\\f"
    else if c == 13
    then bytes "\\r"
    else if ltb c 32 || c == 127
    then bytes "\\x" ++ hex_digit (c / 16) ∷ hex_digit (c % 16) ∷ []
    else c ∷ []

escaped_all : Text → Text
unfolding escaped
escaped_all [] = []
escaped_all (c ∷ s) = escaped c ++ escaped_all s

-- `%q` of a string of printable characters and ASCII controls
unfoldable pub quoted : Text → Text
unfolding escaped_all
quoted s = 34 ∷ (escaped_all s ++ 34 ∷ [])

abbrev to_upper_byte : ℕ → ℕ
to_upper_byte c = if leb b'a' c && leb c b'z' then c - 32 else c

-- strings.ToUpper
unfoldable pub to_upper : Text → Text
to_upper = map to_upper_byte
