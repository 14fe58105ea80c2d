-- ===== src/Base/Trimming.antt =====
-- What stays of a string without the white space around it, as strings.TrimSpace leaves it.
use Prim.Native.Nat.{ℕ}
use mathlib.Core.Path.{◌≡◌, refl, sym, ap}
use mathlib.Core.Bool.{false}
use mathlib.Core.Logic.{inl, inr}
use mathlib.Core.List.{[], ◌∷◌, ◌++◌, map, map-append, reverse, reverse-append, reverse-reverse}
use native.Mathlib.Omega.{arith}
use atlas.Base.Tests.{Bool-cases}
use atlas.Base.Strings.{Text, is_space, drop_spaces, trim_space, to_lower, to_lower_byte}

-- A string that does not begin with a space.
abbrev Bare : Text → Type 0
Bare [] = Unit
Bare (c ∷ s) = is_space c ≡ false

drop_spaces-Bare : (s : Text) → Bare (drop_spaces s)
unfolding drop_spaces
drop_spaces-Bare [] = tt
drop_spaces-Bare (c ∷ s) = elim (Bool-cases (is_space c)) [
  | inl y ↦ rw y (drop_spaces-Bare s)
  | inr n ↦ rw n n
]

drop_spaces_unchanged : (s : Text) → Bare s → drop_spaces s ≡ s
unfolding drop_spaces
drop_spaces_unchanged [] h = refl
drop_spaces_unchanged (c ∷ s) h = rw h refl

-- A last byte that is no space stays.
drop_spaces-last :
    (s : Text) (c : ℕ) → is_space c ≡ false → (t : Text) × (drop_spaces (s ++ c ∷ []) ≡ t ++ c ∷ [])
unfolding drop_spaces
drop_spaces-last [] c h = ([], rw h refl)
drop_spaces-last (x ∷ s) c h = elim (Bool-cases (is_space x)) [
  | inl y ↦ rw y (drop_spaces-last s c h)
  | inr n ↦ (x ∷ s, rw n refl)
]

trimmed_end-Bare : (s : Text) → Bare s → Bare (reverse (drop_spaces (reverse s)))
unfolding drop_spaces
trimmed_end-Bare [] h = tt
trimmed_end-Bare (c ∷ s) h =
    let (t, e) = drop_spaces-last (reverse s) c h in
    rw (reverse-append (c ∷ []) s, e, reverse-append t (c ∷ [])) h

-- Trimming twice is trimming once.
pub trim_space_twice : (s : Text) → trim_space (trim_space s) ≡ trim_space s
unfolding trim_space
trim_space_twice s =
    let y = reverse (drop_spaces (reverse (drop_spaces s))) in
    let once = drop_spaces_unchanged y (trimmed_end-Bare (drop_spaces s) (drop_spaces-Bare s)) in
    rw
      (
        once,
        reverse-reverse (drop_spaces (reverse (drop_spaces s))),
        drop_spaces_unchanged (drop_spaces (reverse (drop_spaces s)))
            (drop_spaces-Bare (reverse (drop_spaces s))),
      )
      refl

lower_space : (c : ℕ) → is_space (to_lower_byte c) ≡ is_space c
lower_space c = ground arith

drop_spaces-lower : (s : Text) → drop_spaces (to_lower s) ≡ to_lower (drop_spaces s)
unfolding drop_spaces to_lower
drop_spaces-lower [] = refl
drop_spaces-lower (c ∷ s) = elim (Bool-cases (is_space c)) [
  | inl y ↦ rw (lower_space c, y) (drop_spaces-lower s)
  | inr n ↦ rw (lower_space c, n) refl
]

lower-reverse : (s : Text) → to_lower (reverse s) ≡ reverse (to_lower s)
unfolding to_lower
lower-reverse [] = refl
lower-reverse (c ∷ s) =
    rw
      (
        reverse-append (c ∷ []) s,
        reverse-append (to_lower_byte c ∷ []) (map to_lower_byte s),
        map-append,
      )
      (ap (λ t. t ++ to_lower_byte c ∷ []) (lower-reverse s))

pub trim_space-lower : (s : Text) → trim_space (to_lower s) ≡ to_lower (trim_space s)
unfolding trim_space
trim_space-lower s =
    rw
      (
        drop_spaces-lower s,
        sym (lower-reverse (drop_spaces s)),
        drop_spaces-lower (reverse (drop_spaces s)),
        sym (lower-reverse (drop_spaces (reverse (drop_spaces s)))),
      )
      refl

lower_byte_twice : (c : ℕ) → to_lower_byte (to_lower_byte c) ≡ to_lower_byte c
lower_byte_twice c = ground arith

pub to_lower_twice : (s : Text) → to_lower (to_lower s) ≡ to_lower s
unfolding to_lower
to_lower_twice [] = refl
to_lower_twice (c ∷ s) = rw (lower_byte_twice c, to_lower_twice s) refl
