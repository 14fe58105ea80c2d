-- ===== src/Kindle/Clock/Face/Placement.antt =====
-- The time and its AM or PM on the clock's band.
use atlas.Base.{
  ℕ, ◌+◌, ◌-◌, ◌*◌, ◌/◌, ◌≤◌, ◌≡◌, refl, true, false, max, min, leb, ltb_ℤ, ℤ, pos, negsuc,
  pos_part, ◌+ℤ◌, ◌-ℤ◌, ◌≤ℤ◌, times, max_ℤ, min_ℤ, div_ℤ, arith,
}
use atlas.Kindle.Rect.{DisplayRect, scaled}
use atlas.Kindle.Clock.Face.{period_size_of, gap_of, widths_of, font_size_of, time_width_of, face}

abbrev pub Inside : DisplayRect → DisplayRect → Type 0
Inside a b =
    (b.left ≤ℤ a.left)
    × (a.left +ℤ a.width ≤ℤ b.left +ℤ b.width)
    × (b.top ≤ℤ a.top)
    × (a.top +ℤ a.height ≤ℤ b.top +ℤ b.height)

-- The middle of the one is at most half a pixel left of the middle of the other.
abbrev pub Centered : DisplayRect → DisplayRect → Type 0
Centered a b =
    (times 2 a.left +ℤ a.width ≤ℤ times 2 b.left +ℤ b.width)
    × (times 2 b.left +ℤ b.width ≤ℤ times 2 a.left +ℤ a.width +ℤ pos 1)

abbrev pub band : (top left width height : ℕ) → DisplayRect
band top left width height = record {
  top = pos top;
  left = pos left;
  width = pos width;
  height = pos height;
}

abbrev size : ℕ → ℕ
size h = max 1 (10 * h / 100)

abbrev gap : ℕ → ℕ
gap w = max (6 * w / 1000) 6

abbrev beside : ℕ → ℕ
beside h = 20 * size h / 10

abbrev room : ℕ → ℕ → ℕ
room w h = w - gap w - beside h

period_size-size : (t l w h : ℕ) → period_size_of (band t l w h) ≡ pos (size h)
period_size-size t l w h = ground arith

gap-gap : (t l w h : ℕ) → gap_of (band t l w h) ≡ pos (gap w)
gap-gap t l w h = ground arith

room_half : (w h : ℕ) → 60 ≤ w → h ≤ w → (gap w + beside h ≤ w) × (w / 2 ≤ room w h)
room_half w h wide low = (omega arith, omega arith)

widths-room :
    (t l w h : ℕ) → 60 ≤ w → h ≤ w → widths_of (band t l w h) ≡ (pos (room w h), pos (beside h))
widths-room t l w h wide low =
    let half = room_half w h wide low in
    let g : leb (gap w) w ≡ true = ground arith in
    let b : leb (beside h) (w - gap w) ≡ true = ground arith in
    let big : ltb_ℤ (pos (room w h)) (pos (w / 2)) ≡ false = ground arith in
    rw (gap-gap t l w h, period_size-size t l w h, g, b, big) refl

positive-max : (x : ℤ) → max_ℤ x (pos 1) ≡ pos (max (pos_part x) 1)
positive-max (pos n) = ground arith
positive-max (negsuc n) = ground arith

abbrev width_at : ℕ → ℕ → ℕ → ℕ
width_at glyphs r f = min r (44 * glyphs * f / 100 + 12 * f / 100)

time_width-width_at :
    (glyphs r f : ℕ) → time_width_of glyphs (pos r) (pos f) ≡ pos (width_at glyphs r f)
time_width-width_at glyphs r f = ground arith

-- The face's fields once the width of the time is known.
placed :
    (t l w h tw : ℕ)
    → 60 ≤ w
    → h ≤ w
    → tw ≤ room w h
    → let left = pos l +ℤ div_ℤ (pos w -ℤ pos tw) 2 in
      let time : DisplayRect = (record {
        top = pos t;
        left = left;
        width = pos tw;
        height = pos h;
      }) in
      let last = pos l +ℤ pos w -ℤ pos (beside h) in
      let period : DisplayRect = record {
        top = pos t +ℤ scaled (pos h) 22 100;
        left = min_ℤ (left +ℤ pos tw +ℤ pos (gap w)) last;
        width = pos (beside h);
        height = scaled (pos h) 42 100;
      } in
      Inside time (band t l w h) × Centered time (band t l w h) × Inside period (band t l w h)
placed t l w h tw wide low fits =
    let half = room_half w h wide low in
    let a : leb tw w ≡ true = ground arith in
    let b : leb (beside h) (l + w) ≡ true = ground arith in
    rw (a, b)
      (
        (omega arith, omega arith, omega arith, omega arith),
        (omega arith, omega arith),
        ground arith,
      )

-- On a band at least 60 pixels wide and no higher than wide, whatever font size is wanted and
-- however long the time, the time's box lies on the band and its middle is within half a pixel of
-- the band's, and the box of AM or PM lies on the band too.
pub face-placed :
    (wanted : ℤ) (t l w h glyphs : ℕ)
    → 60 ≤ w
    → h ≤ w
    → let f = face wanted (band t l w h) glyphs in
      Inside f.time_box (band t l w h)
      × Centered f.time_box (band t l w h)
      × Inside f.period_box (band t l w h)
unfolding face
face-placed wanted t l w h glyphs wide low =
    let r = room w h in
    let f = font_size_of wanted (band t l w h) glyphs (pos r) in
    let x = min_ℤ (min_ℤ wanted (scaled (pos h) 98 100)) (scaled (pos r) 100 (44 * glyphs + 8)) in
    let n = max (pos_part x) 1 in
    let size : f ≡ pos n = positive-max x in
    let tw = width_at glyphs r n in
    rw (widths-room t l w h wide low, size, time_width-width_at glyphs r n, gap-gap t l w h)
      (placed t l w h tw wide low (omega arith))
