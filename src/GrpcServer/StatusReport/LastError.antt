-- ===== src/GrpcServer/StatusReport/LastError.antt =====
-- What a caller can be shown of the service's last error.
use atlas.Base.{
  ℕ, zero, suc, ◌+◌, ◌*◌, ◌≤◌, ◌≡◌, refl, Bool, true, false, Bool-cases, not, ◌&&◌, ◌||◌, ltb, leb,
  List, [], ◌∷◌, length, length-append, length-take, take, Text, All, All-append, join, is_space,
  arith, ◌==◌, if◌then◌else◌, ◌⊎◌, inl, inr, continuation, tail_size, runes_from, runes, rune_bytes,
  text_of, is_white, in_word, onto_first, words, fields,
}
use atlas.GrpcServer.StatusReport.{sanitize_status_error}

-- A byte that ends no line: a space is the only ASCII white space.
abbrev pub InLine : ℕ → Type 0
InLine c = (not (is_space c) || c == 32) ≡ true

abbrev pub OneLine : Text → Type 0
OneLine = All InLine

take-All : (P : ℕ → Type 0) (n : ℕ) (s : Text) → All P s → All P (take n s)
take-All P zero s h = tt
take-All P (suc n) [] h = tt
take-All P (suc n) (c ∷ s) h = (h.0, take-All P n s h.1)

continuation-OneLine :
    (n low high : ℕ) (s : Text)
    → leb 128 low ≡ true
    → continuation n low high s ≡ true
    → OneLine (take n s)
unfolding continuation
continuation-OneLine zero low high s l h = tt
continuation-OneLine (suc n) low high [] l h = tt
continuation-OneLine (suc n) low high (c ∷ s) l h =
    let both = within_bounds (leb low c) (leb c high) (continuation n 128 191 s) h in
    (ground (arith, l, both.0), continuation-OneLine n 128 191 s refl both.1)
  where
    within_bounds : (a b d : Bool) → ((a && b) && d) ≡ true → (a ≡ true) × (d ≡ true)
    within_bounds a b d k = ground (arith, k)

-- So many bytes that continue a character may follow.
abbrev Tail : Text → ℕ → Type 0
Tail s n = OneLine (take n s) × (n ≤ 3)

-- The sizes of a character, tried in turn.
sized_if :
    (b : Bool) (n low high rest : ℕ) (s : Text)
    → (leb 128 low && leb n 3) ≡ true
    → Tail s rest
    → Tail s (if b && continuation n low high s then n else rest)
sized_if false n low high rest s l h = h
sized_if true n low high rest s l h = elim (Bool-cases (continuation n low high s)) [
  | inl fits ↦
      rw fits (continuation-OneLine n low high s (ground (arith, l)) fits, ground (arith, l))
  | inr not_continued ↦ rw not_continued h
]

none_left : (s : Text) → Tail s 0
none_left s = (tt, omega arith)

tail_size-Tail : (c : ℕ) (s : Text) → Tail s (tail_size c s)
unfolding tail_size
tail_size-Tail c s =
    let of_four = if c == 244 && continuation 3 128 143 s then 3 else 0 in
    let of_4 = if (leb 241 c && leb c 243) && continuation 3 128 191 s then 3 else of_four in
    let from_4 = if c == 240 && continuation 3 144 191 s then 3 else of_4 in
    let of_surrogates = if c == 237 && continuation 2 128 159 s then 2 else from_4 in
    let of_3 =
      if (leb 225 c && leb c 236 || leb 238 c && leb c 239) && continuation 2 128 191 s
      then 2
      else of_surrogates in
    let from_3 = if c == 224 && continuation 2 160 191 s then 2 else of_3 in
    let four = sized_if (c == 244) 3 128 143 0 s refl (none_left s) in
    let four_more = sized_if (leb 241 c && leb c 243) 3 128 191 of_four s refl four in
    let first_four = sized_if (c == 240) 3 144 191 of_4 s refl four_more in
    let before_surrogates = sized_if (c == 237) 2 128 159 from_4 s refl first_four in
    let three =
      sized_if (leb 225 c && leb c 236 || leb 238 c && leb c 239) 2 128 191 of_surrogates s refl
        before_surrogates in
    let first_three = sized_if (c == 224) 2 160 191 of_3 s refl three in
    sized_if (leb 194 c && leb c 223) 1 128 191 from_3 s refl first_three

tail-none : (c : ℕ) (s : Text) → ltb c 194 ≡ true → tail_size c s ≡ 0
unfolding tail_size
tail-none c s h = ground arith

-- A character is white space, or has no end of a line in it.
abbrev Fair : Text → Type 0
Fair r = (is_white r ≡ true) ⊎ OneLine r

single-Fair : (c : ℕ) → Fair (c ∷ [])
unfolding is_white
single-Fair c = elim (Bool-cases (is_space c)) [
  | inl white ↦ inl white
  | inr black ↦ inr (ground (arith, black), tt)
]

rune-Fair : (c : ℕ) (s : Text) → Fair (c ∷ take (tail_size c s) s)
rune-Fair c s = elim (Bool-cases (ltb c 194)) [
  | inl small ↦ rw (tail-none c s small) (single-Fair c)
  | inr large ↦ inr (ground (arith, large), (tail_size-Tail c s).0)
]

runes_from-Fair : (n : ℕ) (s : Text) → All Fair (runes_from n s)
unfolding runes_from
runes_from-Fair n [] = tt
runes_from-Fair (suc n) (c ∷ s) = runes_from-Fair n s
runes_from-Fair zero (c ∷ s) = (rune-Fair c s, runes_from-Fair (tail_size c s) s)

onto_first-OneLine :
    (r : Text) (ws : List Text) → OneLine r → All OneLine ws → All OneLine (onto_first r ws)
onto_first-OneLine r [] h hs = (h, tt)
onto_first-OneLine r (w ∷ ws) h hs = (All-append InLine r w h hs.0, hs.1)

kept :
    (b n : Bool) (r : Text) (rest : List Text)
    → is_white r ≡ b
    → Fair r
    → All OneLine rest
    → All OneLine (if b then rest else if n then onto_first r rest else r ∷ rest)
kept true n r rest e h hs = hs
kept false n r rest e (inl white) hs = ground (arith, e, white)
kept false true r rest e (inr h) hs = onto_first-OneLine r rest h hs
kept false false r rest e (inr h) hs = (h, hs)

words-OneLine : (rs : List Text) → All Fair rs → All OneLine (words rs)
unfolding words
words-OneLine [] h = tt
words-OneLine (r ∷ rs) h =
    kept (is_white r) (in_word rs) r (words rs) refl h.0 (words-OneLine rs h.1)

join-OneLine : (ws : List Text) → All OneLine ws → OneLine (join (32 ∷ []) ws)
unfolding join
join-OneLine [] h = tt
join-OneLine (w ∷ []) h = h.0
join-OneLine (w ∷ v ∷ ws) h = All-append InLine w _ h.0 (refl, join-OneLine (v ∷ ws) h.1)

-- The text that is shown is cut into characters of at most four bytes.
abbrev Short : Text → Type 0
Short r = OneLine r × (length r ≤ 4)

runes_from-Short : (n : ℕ) (s : Text) → OneLine s → All Short (runes_from n s)
unfolding runes_from
runes_from-Short n [] h = tt
runes_from-Short (suc n) (c ∷ s) h = runes_from-Short n s h.1
runes_from-Short zero (c ∷ s) h =
    let size = tail_size c s in
    (
      (
        (h.0, take-All InLine size s h.1),
        omega (arith, length-take size s, (tail_size-Tail c s).1),
      ),
      runes_from-Short size s h.1,
    )

rune_bytes-Short : (r : Text) → Short r → Short (rune_bytes r)
unfolding rune_bytes
rune_bytes-Short [] h = h
rune_bytes-Short (c ∷ []) h = one (ltb c 128)
  where
    one : (b : Bool) → Short (if b then c ∷ [] else 239 ∷ 191 ∷ 189 ∷ [])
    one true = h
    one false = ((refl, (refl, (refl, tt))), omega arith)
rune_bytes-Short (a ∷ b ∷ r) h = h

text_of-cut :
    (n : ℕ) (rs : List Text)
    → All Short rs
    → OneLine (text_of (take n rs)) × (length (text_of (take n rs)) ≤ 4 * n)
unfolding text_of
text_of-cut zero rs h = (tt, omega arith)
text_of-cut (suc n) [] h = (tt, omega arith)
text_of-cut (suc n) (r ∷ rs) h =
    let first = rune_bytes-Short r h.0 in
    let rest = text_of-cut n rs h.1 in
    (
      All-append InLine (rune_bytes r) _ first.0 rest.0,
      omega (arith, length-append (rune_bytes r) (text_of (take n rs)), first.1, rest.1),
    )

length-runes_from : (n : ℕ) (s : Text) → length s ≤ n + 4 * length (runes_from n s)
unfolding runes_from
length-runes_from n [] = omega arith
length-runes_from (suc n) (c ∷ s) = omega (arith, length-runes_from n s)
length-runes_from zero (c ∷ s) =
    omega (arith, length-runes_from (tail_size c s) s, (tail_size-Tail c s).1)

chosen :
    (b : Bool) (v : Text)
    → ltb 512 (length (runes v)) ≡ b
    → OneLine v
    → let shown = if b then text_of (take 512 (runes v)) else v in
      OneLine shown × (length shown ≤ 2048)
unfolding runes
chosen true v h line = text_of-cut 512 (runes v) (runes_from-Short 0 v line)
chosen false v h line = (line, ground (arith, h, length-runes_from 0 v))

-- Whatever the supervisor's last error says, in whatever bytes, a caller is shown one line of at most
-- 2048 bytes, the most that 512 characters take, with no ASCII white space in it but spaces.
pub sanitize_status_error-OneLine :
    (value : Text)
    → OneLine (sanitize_status_error value) × (length (sanitize_status_error value) ≤ 2048)
unfolding sanitize_status_error fields runes
sanitize_status_error-OneLine value =
    let v = join (32 ∷ []) (fields value) in
    chosen (ltb 512 (length (runes v))) v refl
      (join-OneLine (fields value) (words-OneLine (runes value) (runes_from-Fair 0 value)))
