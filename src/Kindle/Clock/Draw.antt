-- ===== src/Kindle/Clock/Draw.antt =====
-- internal/kindle/clock.go: the clock's screen, drawn and kept up to date.
use atlas.Base.{
  ℕ, ◌*◌, true, not, ◌&&◌, ltb, [], ◌∷◌, ◌++◌, Text, bytes, ℤ, pos, negsuc, ◌+ℤ◌, min_ℤ, rune_count,
  trim_space, is_empty, Option, none, some, atoi, quoted, has_prefix, drop, is_digit, ◌==◌,
  if◌then◌else◌,
}
use atlas.Errors.{message, ok}
use atlas.Kindle.Device.Link.{Op, fail, ◌>>=◌, ◌>>◌, run, within}
use atlas.Kindle.Device.{fbink_path}
use atlas.Kindle.Rect.{DisplayRect, scaled, draw_text_region, fill_rect}

-- The digits at the front of a text, and what follows them.
unfoldable pub digits_front : Text → Text × Text
digits_front [] = ([], [])
digits_front (c ∷ s) =
    let (ds, rest) = digits_front s in if is_digit c then (c ∷ ds, rest) else ([], c ∷ s)

-- The regular expression screenWidth=([0-9]+);screenHeight=([0-9]+) at the front of a text.
size_here : Text → Option (Text × Text)
unfolding digits_front has_prefix bytes
size_here s =
    let (width, after) = digits_front (drop 12 s) in
    let (height, rest) = digits_front (drop 14 after) in
    if has_prefix s (bytes "screenWidth=")
      && not (is_empty width)
      && has_prefix after (bytes ";screenHeight=")
      && not (is_empty height)
    then some (width, height)
    else none

-- Its first match.
unfoldable pub find_size : Text → Option (Text × Text)
unfolding size_here
find_size [] = none
find_size (c ∷ s) =
    let later = find_size s in elim (size_here (c ∷ s)) [ some m ↦ some m | none ↦ later ]

-- A number that strconv.Atoi reads and that is at least 1
unfoldable pub positive_size : Text → Option ℕ
unfolding atoi
positive_size s = elim (atoi s) [
  | none ↦ none
  | some n ↦ elim n [ pos k ↦ if k == 0 then none else some k | negsuc k ↦ none ]
]

unfoldable pub size_of_output : Text → Op (ℕ × ℕ)
unfolding bytes find_size quoted trim_space positive_size
size_of_output output w d = elim (find_size output) [
  | none ↦
      fail (message (bytes "clock: unexpected display size " ++ quoted (trim_space output))) w d
  | some m ↦ elim (positive_size m.0) [
    | none ↦ fail (message (bytes "clock: invalid display size " ++ quoted (trim_space output))) w d
    | some width ↦ elim (positive_size m.1) [
      | none ↦
          fail (message (bytes "clock: invalid display size " ++ quoted (trim_space output))) w d
      | some height ↦
          (ok (width, height), record d { display_width = width; display_height = height })
    ]
  ]
]

unfoldable pub display_size : Op (ℕ × ℕ)
unfolding bytes fbink_path size_of_output
display_size w d =
    if ltb 0 d.display_width && ltb 0 d.display_height
    then (ok (d.display_width, d.display_height), d)
    else (do
      output ← within (bytes "clock: get display size") (run (fbink_path ++ bytes " -e"))
      size_of_output output)
        w d

pub record MetricsSnapshot : Type 0 where
  pub climate : Text
  pub temperature : Text
  pub pressure : Text
  pub humidity : Text
  pub pm25 : Text

abbrev missing : Text → Text
unfolding bytes trim_space
missing current = if is_empty (trim_space current) then bytes "--" else current

-- `fillMissingMetrics`: the fields are distinct, so the order of the map does not matter.
unfoldable pub fill_missing_metrics : MetricsSnapshot → MetricsSnapshot
unfolding missing
fill_missing_metrics v = record {
  climate = missing v.climate;
  temperature = missing v.temperature;
  pressure = missing v.pressure;
  humidity = missing v.humidity;
  pm25 = missing v.pm25;
}

unfoldable pub no_readings : MetricsSnapshot
unfolding bytes
no_readings = record {
  climate = bytes "--";
  temperature = bytes "--";
  pressure = bytes "--";
  humidity = bytes "--";
  pm25 = bytes "--";
}

-- `metrics` is what a provider answers: none if there is no provider or it fails.
pub record ClockOptions : Type 0 where
  pub font_path : Text
  pub font_size : ℤ
  pub metrics : Option MetricsSnapshot

-- One column: the label, the rule, the number and the unit.
unfoldable pub draw_metric :
    (name label number unit font : Text) → DisplayRect → DisplayRect → (w h : ℤ) → Op (Unit {0})
unfolding bytes draw_text_region fill_rect rune_count
draw_metric name label number unit font box rule w h =
    let label_box = record box { height = scaled box.height 16 100 } in
    let number_box = record box {
      top = box.top +ℤ scaled box.height 25 100;
      height = scaled box.height 46 100;
    } in
    let unit_box = record box {
      top = box.top +ℤ scaled box.height 76 100;
      height = scaled box.height 18 100;
    } in
    let by_height = scaled number_box.height 94 100 in
    let glyphs = rune_count number in
    let size =
      if ltb 0 glyphs
      then min_ℤ by_height (scaled number_box.width 100 (58 * glyphs))
      else by_height in
    do
      draw_text_region (name ++ bytes " label") label font (scaled h 25 1000) label_box w h true
      within (bytes "clock: " ++ name ++ bytes " rule") (fill_rect rule true)
      draw_text_region (name ++ bytes " number") number font size number_box w h true
      draw_text_region (name ++ bytes " unit") unit font (scaled h 24 1000) unit_box w h true
