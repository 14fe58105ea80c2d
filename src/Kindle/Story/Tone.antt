-- ===== src/Kindle/Story/Tone.antt =====
-- internal/kindle/story.go: the pixels of a story's background (`prepareStoryBackground` and the
-- functions below it), from the decoded and scaled picture on. A gray image is a function of column
-- and row.
pub mod Window
pub mod Range
mod Examples
use atlas.Base.{
  ℕ, zero, suc, ◌+◌, ◌-◌, ◌*◌, ◌/◌, max, min, Bool, true, false, ◌&&◌, ◌||◌, not, leb, ltb, ◌==◌,
  List, [], ◌∷◌, ◌++◌, bytes, ℤ, pos, pos_part, ◌+ℤ◌, ◌-ℤ◌, times, div_ℤ, max_ℤ, min_ℤ, itoa_ℤ,
  ltb_ℤ, if◌then◌else◌,
}
use atlas.Errors.{Result, ok, err, message}

abbrev pub Gray : Type 0
Gray = (x y : ℕ) → ℕ

pub record Box : Type 0 where
  pub left : ℕ
  pub top : ℕ
  pub width : ℕ
  pub height : ℕ

-- The sizes of a source that are accepted; they are not negative.
unfoldable pub supported : (width height : ℕ) → Bool
supported width height =
    leb 1 width
    && leb 1 height
    && leb width 10000
    && leb height 10000
    && leb (width * height) 40000000

-- The part of a source that covers a display of the given size.
unfoldable pub cover_crop : (source_width source_height width height : ℕ) → Box
cover_crop sw sh width height =
    if ltb (width * sh) (sw * height)
    then (let crop = sh * width / height in
        record { left = (sw - crop) / 2; top = 0; width = crop; height = sh })
    else (let crop = sw * height / width in
        record { left = 0; top = (sh - crop) / 2; width = sw; height = crop })

-- `storyScrimPercent`, with its peak of 25
unfoldable pub story_scrim_percent : ℕ → ℕ
story_scrim_percent y =
    if ltb y 8
    then y * 25 / 8
    else if ltb y 82
    then 25
    else if ltb y 100
    then 25 * (100 - y) / 18
    else 0

-- The sum of a row up to a column, as `rowSum` has it.
unfoldable pub row_sum : Gray → (y x : ℕ) → ℕ
row_sum g y zero = 0
row_sum g y (suc x) = row_sum g y x + g x y

-- The table `integral`, at index y * stride + x: its first row and column stay zero.
unfoldable pub integral : Gray → (y x : ℕ) → ℕ
unfolding row_sum
integral g zero x = 0
integral g (suc y) zero = 0
integral g (suc y) (suc x) = integral g y (suc x) + row_sum g y (suc x)

-- The sum over a window, by four looks at the table.
unfoldable pub window_sum : Gray → (y0 y1 x0 x1 : ℕ) → ℤ
unfolding integral
window_sum g y0 y1 x0 x1 =
    pos (integral g y1 x1)
    -ℤ pos (integral g y0 x1)
    -ℤ pos (integral g y1 x0)
    +ℤ pos (integral g y0 x0)

-- uint8(max(0, min(255, …)))
unfoldable pub sharpened : (center : ℕ) → (mean : ℤ) → (amount : ℕ) → ℕ
sharpened center mean amount =
    pos_part (
      max_ℤ (pos 0) (min_ℤ (pos 255) (pos center +ℤ div_ℤ (times amount (pos center -ℤ mean)) 100)))

-- `enhanceLocalContrast`
unfoldable pub enhance_local_contrast : Gray → (width height radius amount : ℕ) → Gray
unfolding window_sum sharpened
enhance_local_contrast g width height radius amount x y =
    if width == 0 || height == 0 || ltb radius 1 || amount == 0
    then g x y
    else (let y0 = y - radius in
        let y1 = min height (y + radius + 1) in
        let x0 = x - radius in
        let x1 = min width (x + radius + 1) in
        let mean = div_ℤ (window_sum g y0 y1 x0 x1) ((x1 - x0) * (y1 - y0)) in
        sharpened (g x y) mean amount)

-- How often a value stands in the first columns of a row, and in the first rows.
unfoldable pub count_row : Gray → (value y width : ℕ) → ℕ
count_row g value y zero = 0
count_row g value y (suc x) = count_row g value y x + (if g x y == value then 1 else 0)

unfoldable pub histogram : Gray → (width height value : ℕ) → ℕ
unfolding count_row
histogram g width zero value = 0
histogram g width (suc y) value = histogram g width y value + count_row g value y width

-- The loop of `valueAt` over the values left, from `value` on
unfoldable pub value_from : (counts : ℕ → ℕ) → (target value seen left : ℕ) → ℕ
value_from counts target value seen zero = 255
value_from counts target value seen (suc left) =
    let later = value_from counts target (suc value) (seen + counts value) left in
    if leb target (seen + counts value) then value else later

-- `valueAt`
unfoldable pub value_at : Gray → (width height percent : ℕ) → ℕ
unfolding histogram value_from
value_at g width height percent =
    value_from (histogram g width height) (max 1 (width * height * percent / 100)) 0 0 256

-- The range of a picture, which is the whole one where it is nearly flat.
unfoldable pub tone_range : Gray → (width height : ℕ) → ℕ × ℕ
unfolding value_at
tone_range g width height =
    let low = value_at g width height 2 in
    let high = value_at g width height 98 in
    if ltb_ℤ (pos high -ℤ pos low) (pos 32) then (0, 255) else (low, high)

-- The numbers of 64 bits in floating point, with what the tones take from them: a conversion, a
-- decimal constant, which is `digits` over ten to the number of `places`, division, math.Pow,
-- multiplication, and math.Round followed by the conversion to an integer, of what is not negative.
pub record Floats : Type 1 where
  pub Float : Type 0
  pub of_int : ℕ → Float
  pub decimal : (digits places : ℕ) → Float
  pub div : Float → Float → Float
  pub pow : Float → Float → Float
  pub mul : Float → Float → Float
  pub round : Float → ℕ

abbrev pub story_shadow_floor : ℕ
story_shadow_floor = 16

abbrev pub story_highlight_ceiling : ℕ
story_highlight_ceiling = 132

-- `einkTone`
unfoldable pub eink_tone : Floats → (luma low high : ℕ) → ℕ
eink_tone f luma low high =
    let normalized = f.div (f.of_int (luma - low)) (f.of_int (high - low)) in
    let curved = f.pow normalized (f.decimal 92 2) in
    let range = f.of_int (story_highlight_ceiling - story_shadow_floor) in
    if leb luma low
    then story_shadow_floor
    else if leb high luma
    then story_highlight_ceiling
    else story_shadow_floor + f.round (f.mul curved range)

-- One pixel of the background
unfoldable pub background_pixel : Floats → Gray → (low high height : ℕ) → Gray
unfolding eink_tone story_scrim_percent
background_pixel f g low high height x y =
    eink_tone f (g x y) low high * (100 - story_scrim_percent (y * 100 / height)) / 100

-- The background made of the scaled picture
unfoldable pub background : Floats → Gray → (width height : ℕ) → Gray
unfolding enhance_local_contrast tone_range background_pixel
background f resized width height =
    let detail = enhance_local_contrast resized width height (max 2 (min width height / 80)) 40 in
    let range = tone_range detail width height in background_pixel f detail range.0 range.1 height
