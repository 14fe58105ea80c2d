-- ===== src/Base/Runes.antt =====
-- The characters of a text as Go reads them in []rune, and strings.Fields, which splits at them.
use Prim.Native.Nat.{ℕ, zero, suc}
use mathlib.Core.Bool.{Bool, true, false, not, ◌&&◌, ◌||◌}
use mathlib.Core.List.{List, [], ◌∷◌, ◌++◌}
use atlas.Base.Tests.{ltb, leb, ◌==◌, if◌then◌else◌}
use atlas.Base.Lists.{length, take}
use atlas.Base.Strings.{Text, is_space}

abbrev between : (low high c : ℕ) → Bool
between low high c = leb low c && leb c high

-- Whether a text begins with `n` bytes that continue a character, the first between two bounds.
unfoldable pub continuation : (n low high : ℕ) → Text → Bool
continuation zero low high s = true
continuation (suc n) low high [] = false
continuation (suc n) low high (c ∷ s) = between low high c && continuation n 128 191 s

-- How many bytes of `s` belong to the character that the byte `c` begins in front of it: none if `c`
-- is ASCII, and none if it begins no valid character.
unfoldable pub tail_size : ℕ → Text → ℕ
unfolding continuation
tail_size c s =
    if between 194 223 c && continuation 1 128 191 s
    then 1
    else if c == 224 && continuation 2 160 191 s
    then 2
    else if (between 225 236 c || between 238 239 c) && continuation 2 128 191 s
    then 2
    else if c == 237 && continuation 2 128 159 s
    then 2
    else if c == 240 && continuation 3 144 191 s
    then 3
    else if between 241 243 c && continuation 3 128 191 s
    then 3
    else if c == 244 && continuation 3 128 143 s
    then 3
    else 0

-- The bytes of each character, `n` bytes from here on.
unfoldable pub runes_from : ℕ → Text → List Text
unfolding tail_size
runes_from n [] = []
runes_from (suc n) (c ∷ s) = runes_from n s
runes_from zero (c ∷ s) = (c ∷ take (tail_size c s) s) ∷ runes_from (tail_size c s) s

-- The characters of a text, each as the bytes it is read from; a byte that begins no valid character
-- is one of its own.
unfoldable pub runes : Text → List Text
unfolding runes_from
runes s = runes_from 0 s

-- string(r) of such a character: of a byte that is no character, U+FFFD.
unfoldable pub rune_bytes : Text → Text
rune_bytes (c ∷ []) = if ltb c 128 then c ∷ [] else 239 ∷ 191 ∷ 189 ∷ []
rune_bytes r = r

-- string(rs)
unfoldable pub text_of : List Text → Text
unfolding rune_bytes
text_of [] = []
text_of (r ∷ rs) = rune_bytes r ++ text_of rs

-- len([]rune(s))
unfoldable pub rune_count : Text → ℕ
unfolding runes
rune_count s = length (runes s)

-- unicode.IsSpace
unfoldable pub is_white : Text → Bool
is_white (c ∷ []) = is_space c
is_white (a ∷ b ∷ []) = a == 194 && (b == 133 || b == 160)
is_white (a ∷ b ∷ c ∷ []) =
    a == 225 && b == 154 && c == 128
    || a == 226 && b == 128 && (between 128 138 c || c == 168 || c == 169 || c == 175)
    || a == 226 && b == 129 && c == 159
    || a == 227 && b == 128 && c == 128
is_white r = false

abbrev pub in_word : List Text → Bool
unfolding is_white
in_word [] = false
in_word (r ∷ rs) = not (is_white r)

abbrev pub onto_first : Text → List Text → List Text
onto_first r [] = r ∷ []
onto_first r (w ∷ ws) = (r ++ w) ∷ ws

-- The words of a sequence of characters.
unfoldable pub words : List Text → List Text
unfolding is_white
words [] = []
words (r ∷ rs) =
    let rest = words rs in
    if is_white r then rest else if in_word rs then onto_first r rest else r ∷ rest

-- strings.Fields
unfoldable pub fields : Text → List Text
unfolding runes words
fields s = words (runes s)
