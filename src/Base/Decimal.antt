-- ===== src/Base/Decimal.antt =====
-- strconv.Itoa and strings.Join over the bytes of a text.
use Prim.Native.Nat.{ℕ, zero, suc, ◌+◌, ◌/◌, ◌%◌}
use mathlib.Core.Path.{◌≡◌, refl}
use mathlib.Core.List.{List, [], ◌∷◌, ◌++◌}
use atlas.Base.Tests.{ltb, if◌then◌else◌}
use atlas.Base.Strings.{Text}

-- The digits of a number, most significant first, in front of those already found. A number has
-- fewer digits than its successor counts, which is the fuel.
digits_onto : ℕ → ℕ → Text → Text
digits_onto zero n acc = acc
digits_onto (suc f) n acc =
    let rest = digits_onto f (n / 10) ((48 + n % 10) ∷ acc) in
    if ltb n 10 then (48 + n) ∷ acc else rest

-- strconv.Itoa, of a number that is not negative
unfoldable pub itoa : ℕ → Text
unfolding digits_onto
itoa n = digits_onto (suc n) n []

-- strings.Join
unfoldable pub join : Text → List Text → Text
join sep [] = []
join sep (t ∷ []) = t
join sep (t ∷ u ∷ ts) = t ++ (sep ++ join sep (u ∷ ts))

itoa_small : itoa 1448 ≡ 49 ∷ 52 ∷ 52 ∷ 56 ∷ []
unfolding itoa
itoa_small = refl
