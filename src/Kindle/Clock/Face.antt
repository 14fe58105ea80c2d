-- ===== src/Kindle/Clock/Face.antt =====
-- internal/kindle/clock.go: where and how large `drawClock` writes the time and its AM or PM.
pub mod Placement
use atlas.Base.{
  ℕ, zero, suc, ◌+◌, ◌-◌, ◌*◌, ◌/◌, ◌%◌, Bool, true, false, leb, ltb, ltb_ℤ, List, [], ◌∷◌, ◌++◌,
  Text, bytes, ℤ, pos, negsuc, ◌+ℤ◌, ◌-ℤ◌, times, max_ℤ, min_ℤ, div_ℤ, itoa, ◌==◌, if◌then◌else◌,
}
use atlas.Kindle.Rect.{DisplayRect, scaled}

-- A time of day, and the day as `Format("Monday, January 2")` writes it.
pub record Moment : Type 0 where
  pub hour : ℕ
  pub minute : ℕ
  pub day : Text

two_digits : ℕ → Text
unfolding itoa
two_digits n = if ltb n 10 then b'0' ∷ itoa n else itoa n

-- Format("3:04")
unfoldable pub time_text : Moment → Text
unfolding itoa bytes two_digits
time_text now =
    let h = now.hour % 12 in itoa (if h == 0 then 12 else h) ++ bytes ":" ++ two_digits now.minute

-- Format("PM")
unfoldable pub period_text : Moment → Text
unfolding bytes
period_text now = if ltb now.hour 12 then bytes "AM" else bytes "PM"

-- The sizes and boxes that `drawClock` computes.
pub record Face : Type 0 where
  pub font_size : ℤ
  pub period_size : ℤ
  pub time_box : DisplayRect
  pub period_box : DisplayRect

abbrev pub period_size_of : DisplayRect → ℤ
period_size_of box = max_ℤ (pos 1) (scaled box.height 10 100)

abbrev pub gap_of : DisplayRect → ℤ
gap_of box = max_ℤ (scaled box.width 6 1000) (pos 6)

-- `timeAvailW` and `periodWidth`
abbrev pub widths_of : DisplayRect → ℤ × ℤ
widths_of box =
    let size = period_size_of box in
    let period = scaled size 20 10 in
    let room = box.width -ℤ gap_of box -ℤ period in
    let half = div_ℤ box.width 2 in
    if ltb_ℤ room half
    then (half, max_ℤ (times 2 size) (box.width -ℤ gap_of box -ℤ half))
    else (room, period)

abbrev pub font_size_of : ℤ → DisplayRect → ℕ → ℤ → ℤ
font_size_of wanted box glyphs room =
    max_ℤ (min_ℤ (min_ℤ wanted (scaled box.height 98 100)) (scaled room 100 (44 * glyphs + 8)))
      (pos 1)

abbrev pub time_width_of : ℕ → ℤ → ℤ → ℤ
time_width_of glyphs room size = min_ℤ room (scaled size (44 * glyphs) 100 +ℤ scaled size 12 100)

unfoldable pub face : ℤ → DisplayRect → ℕ → Face
face wanted box glyphs =
    let (room, period_width) = widths_of box in
    let size = font_size_of wanted box glyphs room in
    let width = time_width_of glyphs room size in
    let left = box.left +ℤ div_ℤ (box.width -ℤ width) 2 in
    let beside = left +ℤ width +ℤ gap_of box in
    let last = box.left +ℤ box.width -ℤ period_width in
    record {
      font_size = size;
      period_size = period_size_of box;
      time_box = record { top = box.top; left = left; width = width; height = box.height };
      period_box = record {
        top = box.top +ℤ scaled box.height 22 100;
        left = min_ℤ beside last;
        width = period_width;
        height = scaled box.height 42 100;
      };
    }
