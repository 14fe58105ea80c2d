-- ===== src/Kindle/Story/Tone/Range.antt =====
-- internal/kindle/story.go: the range that the pixels of a story's background keep to, and the part of
-- the source that covers the display.
use atlas.Base.{
  ℕ, ◌+◌, ◌-◌, ◌*◌, ◌/◌, ◌≤◌, max, min, Bool, true, false, Bool-cases, leb, ltb, ◌≡◌, refl,
  if◌then◌else◌, inl, inr, arith,
}
use native.Mathlib.Nat.{mul-le-mul, div-le_of_le-mul, mul_comm}
use atlas.Kindle.Story.Tone.{
  Gray, Floats, cover_crop, story_scrim_percent, eink_tone, background_pixel, background,
  enhance_local_contrast, tone_range,
}

scrim-le : (y : ℕ) → story_scrim_percent y ≤ 25
unfolding story_scrim_percent
scrim-le y = ground arith

-- What the tones rely on of floating point, with an order on it: operations are rounded, and rounding
-- keeps the order, so that what is exactly at most a number that can be represented stays so.
pub record Ordered (f : Floats) (le : f.Float → f.Float → Type 0) : Type 0 where
  pub constant : (digits places : ℕ) → le (f.of_int 0) (f.decimal digits places)
  pub quotient :
      (a b : ℕ)
      → 1 ≤ b
      → a ≤ b
      → le (f.of_int 0) (f.div (f.of_int a) (f.of_int b))
        × le (f.div (f.of_int a) (f.of_int b)) (f.of_int 1)
  pub power :
      (x y : f.Float)
      → le (f.of_int 0) x
      → le x (f.of_int 1)
      → le (f.of_int 0) y
      → le (f.of_int 0) (f.pow x y) × le (f.pow x y) (f.of_int 1)
  pub product :
      (x : f.Float) (n : ℕ)
      → le (f.of_int 0) x
      → le x (f.of_int 1)
      → le (f.of_int 0) (f.mul x (f.of_int n)) × le (f.mul x (f.of_int n)) (f.of_int n)
  pub rounded : (x : f.Float) (n : ℕ) → le (f.of_int 0) x → le x (f.of_int n) → f.round x ≤ n

-- Between the ends of the range the curve adds at most the distance from the floor to the ceiling.
curve-bound :
    (f : Floats) (le : f.Float → f.Float → Type 0) (part whole : ℕ)
    → Ordered f le
    → 1 ≤ whole
    → part ≤ whole
    → let normalized = f.div (f.of_int part) (f.of_int whole) in
      f.round (f.mul (f.pow normalized (f.decimal 92 2)) (f.of_int 116)) ≤ 116
curve-bound f le part whole o some_range inside =
    let gamma = f.decimal 92 2 in
    let normalized = f.div (f.of_int part) (f.of_int whole) in
    let q = o.quotient part whole some_range inside in
    let c = o.power normalized gamma q.0 q.1 (o.constant 92 2) in
    let p = o.product (f.pow normalized gamma) 116 c.0 c.1 in
    o.rounded (f.mul (f.pow normalized gamma) (f.of_int 116)) 116 p.0 p.1

chosen :
    (b c : Bool) (curved : ℕ)
    → (b ≡ false → c ≡ false → curved ≤ 116)
    → let tone = if b then 16 else if c then 132 else 16 + curved in (16 ≤ tone) × (tone ≤ 132)
chosen true c curved h = (omega arith, omega arith)
chosen false true curved h = (omega arith, omega arith)
chosen false false curved h = let most = h refl refl in (omega arith, omega (arith, most))

tone-bounds :
    (f : Floats) (le : f.Float → f.Float → Type 0) (luma low high : ℕ)
    → Ordered f le
    → (16 ≤ eink_tone f luma low high) × (eink_tone f luma low high ≤ 132)
unfolding eink_tone
tone-bounds f le luma low high o = chosen (leb luma low) (leb high luma) _ (λ above below.
    curve-bound f le (luma - low) (high - low) o (ground (arith, above, below))
      (ground (arith, above, below)))

veiled :
    (tone scrim : ℕ)
    → 16 ≤ tone
    → tone ≤ 132
    → scrim ≤ 25
    → (12 ≤ tone * (100 - scrim) / 100) × (tone * (100 - scrim) / 100 ≤ 132)
veiled tone scrim l u s =
    let low : 16 * 75 ≤ tone * (100 - scrim) = mul-le-mul {m₁ = 75} l (omega (arith, s)) in
    let high : tone * (100 - scrim) ≤ 132 * 100 = mul-le-mul {m₂ = 100} u (omega arith) in
    (omega (arith, low), omega (arith, high))

-- Every pixel of a story's background lies between 12 and 132: no detail turns black, and white type
-- keeps its distance. Of floating point it is asked that conversions, quotients, powers and products
-- keep the order of what they round.
pub background-bounds :
    (f : Floats) (le : f.Float → f.Float → Type 0) (g : Gray) (width height x y : ℕ)
    → Ordered f le
    → (12 ≤ background f g width height x y) × (background f g width height x y ≤ 132)
unfolding background background_pixel
background-bounds f le g width height x y o =
    let detail = enhance_local_contrast g width height (max 2 (min width height / 80)) 40 in
    let range = tone_range detail width height in
    let tone = tone-bounds f le (detail x y) range.0 range.1 o in
    veiled (eink_tone f (detail x y) range.0 range.1) (story_scrim_percent (y * 100 / height))
      tone.0 tone.1 (scrim-le (y * 100 / height))

quotient_le : (n k m : ℕ) → 1 ≤ k → n ≤ m * k → n / k ≤ m
quotient_le n k m hk h = div-le_of_le-mul k (rw (mul_comm k m) h)

-- The crop of a source lies within it.
pub cover_crop-inside :
    (sw sh width height : ℕ)
    → 1 ≤ width
    → 1 ≤ height
    → let b = cover_crop sw sh width height in (b.left + b.width ≤ sw) × (b.top + b.height ≤ sh)
unfolding cover_crop
cover_crop-inside sw sh width height hw hh = elim (Bool-cases (ltb (width * sh) (sw * height))) [
  | inl wide ↦
      let crop = quotient_le (sh * width) height sw hh (ground (arith, wide, mul_comm sh width)) in
      rw wide (omega (arith, crop), omega arith)
  | inr tall ↦
      let crop = quotient_le (sw * height) width sh hw (ground (arith, tall)) in
      rw tall (omega arith, omega (arith, crop))
]
