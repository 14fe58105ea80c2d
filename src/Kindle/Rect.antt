-- ===== src/Kindle/Rect.antt =====
-- internal/kindle/clock.go: rectangles of the screen and the commands that draw in them.
use atlas.Base.{
  ℕ, zero, suc, Bool, false, ◌||◌, ltb_ℤ, leb_ℤ, List, [], ◌∷◌, ◌++◌, Text, bytes, ℤ, pos, pos_part,
  ◌+ℤ◌, ◌-ℤ◌, times, max_ℤ, div_ℤ, itoa_ℤ, join, is_empty, if◌then◌else◌,
}
use atlas.Errors.{message}
use atlas.Kindle.Shell.{shell_quote}
use atlas.Kindle.Device.Link.{Op, pure, fail, ◌>>◌, run, within}
use atlas.Kindle.Device.{fbink_path}

pub record DisplayRect : Type 0 where
  pub top : ℤ
  pub left : ℤ
  pub width : ℤ
  pub height : ℤ

-- v * n / d, as ints
abbrev pub scaled : ℤ → ℕ → ℕ → ℤ
scaled v n d = div_ℤ (times n v) d

-- `regionSpec`
unfoldable pub region_spec : DisplayRect → Text
unfolding bytes itoa_ℤ
region_spec box =
    bytes "top="
    ++ itoa_ℤ box.top
    ++ bytes ",left="
    ++ itoa_ℤ box.left
    ++ bytes ",width="
    ++ itoa_ℤ box.width
    ++ bytes ",height="
    ++ itoa_ℤ box.height

-- `typeSpecPad`
unfoldable pub type_spec_pad :
    Text → ℤ → DisplayRect → (screen_width screen_height : ℤ) → Text → Text
unfolding bytes itoa_ℤ
type_spec_pad font font_size box screen_width screen_height padding =
    let right = screen_width -ℤ box.left -ℤ box.width in
    let bottom = screen_height -ℤ box.top -ℤ box.height in
    bytes "regular="
    ++ font
    ++ bytes ",px="
    ++ itoa_ℤ font_size
    ++ bytes ",top="
    ++ itoa_ℤ box.top
    ++ bytes ",bottom="
    ++ itoa_ℤ bottom
    ++ bytes ",left="
    ++ itoa_ℤ box.left
    ++ bytes ",right="
    ++ itoa_ℤ right
    ++ bytes ",padding="
    ++ padding

unfoldable pub type_spec : Text → ℤ → DisplayRect → (screen_width screen_height : ℤ) → Text
unfolding bytes type_spec_pad
type_spec font font_size box w h = type_spec_pad font font_size box w h (bytes "BOTH")

unfoldable pub type_spec_no_pad : Text → ℤ → DisplayRect → (screen_width screen_height : ℤ) → Text
unfolding bytes type_spec_pad
type_spec_no_pad font font_size box w h = type_spec_pad font font_size box w h (bytes "NONE")

-- FBInk refuses to refresh a region of one pixel.
abbrev pub too_small : DisplayRect → Bool
too_small box = ltb_ℤ box.width (pos 2) || ltb_ℤ box.height (pos 2)

-- The font size that a text region allows.
abbrev pub capped_size : ℤ → DisplayRect → ℤ
capped_size font_size box =
    let most = scaled box.height 96 100 in
    if ltb_ℤ most font_size then max_ℤ (pos 1) most else font_size

abbrev pub center_flag : Bool → Text
unfolding bytes
center_flag centered = if centered then bytes " -m -M" else []

-- The command line of `drawTextRegion`: clear, draw the text and refresh, in one region.
unfoldable pub text_command :
    Text → Text → ℤ → DisplayRect → (screen_width screen_height : ℤ) → Bool → Text
unfolding bytes fbink_path shell_quote type_spec_no_pad region_spec center_flag
text_command value font font_size box w h centered =
    fbink_path
    ++ bytes " -q -b -B WHITE -k "
    ++ region_spec box
    ++ bytes " && "
    ++ fbink_path
    ++ bytes " -q -b -B WHITE -C BLACK"
    ++ center_flag centered
    ++ bytes " -t "
    ++ shell_quote (type_spec_no_pad font (capped_size font_size box) box w h)
    ++ bytes " -- "
    ++ shell_quote value
    ++ bytes " && "
    ++ fbink_path
    ++ bytes " -q -W GC16 -s "
    ++ region_spec box

unfoldable pub draw_text_region :
    (name value font : Text)
    → ℤ
    → DisplayRect
    → (screen_width screen_height : ℤ) → Bool
    → Op (Unit {0})
unfolding bytes itoa_ℤ text_command
draw_text_region name value font font_size box w h centered =
    if too_small box
    then fail (
        message (
          bytes "clock: draw "
          ++ name
          ++ bytes ": region too small ("
          ++ itoa_ℤ box.width
          ++ bytes "x"
          ++ itoa_ℤ box.height
          ++ bytes ")"))
    else (do
      within (bytes "clock: draw " ++ name)
          (run (text_command value font font_size box w h centered))
      pure tt)

unfoldable pub fill_command : DisplayRect → Bool → Text
unfolding bytes fbink_path region_spec
fill_command box black =
    fbink_path
    ++ bytes " -q -b -B "
    ++ (if black then bytes "BLACK" else bytes "WHITE")
    ++ bytes " -k "
    ++ region_spec box
    ++ bytes " && "
    ++ fbink_path
    ++ bytes " -q -W GC16 -s "
    ++ region_spec box

-- `fillRect`
unfoldable pub fill_rect : DisplayRect → Bool → Op (Unit {0})
unfolding fill_command
fill_rect box black = if too_small box then pure tt else (do run (fill_command box black); pure tt)

-- The loop of `drawDottedLine`: the segments from `left` on. Each step is at least six pixels, so
-- as many rounds as the box has pixels in width are enough.
unfoldable pub segments : ℕ → ℤ → DisplayRect → (dash gap : ℤ) → List DisplayRect
segments zero left box dash gap = []
segments (suc f) left box dash gap =
    let later = segments f (left +ℤ (dash +ℤ gap)) box dash gap in
    if leb_ℤ (left +ℤ dash) (box.left +ℤ box.width)
    then record { top = box.top; left = left; width = dash; height = max_ℤ (pos 2) box.height }
      ∷ later
    else []

abbrev pub dots : DisplayRect → List DisplayRect
unfolding segments
dots box =
    segments (suc (pos_part box.width)) box.left box (max_ℤ (pos 3) (scaled box.width 6 1000))
      (max_ℤ (pos 3) (scaled box.width 5 1000))

unfoldable pub dot_commands : List DisplayRect → List Text
unfolding bytes fbink_path region_spec
dot_commands [] = []
dot_commands (seg ∷ segs) =
    (fbink_path ++ bytes " -q -b -B BLACK -k " ++ region_spec seg) ∷ dot_commands segs

unfoldable pub draw_dotted_line : DisplayRect → Op (Unit {0})
unfolding bytes fbink_path region_spec dot_commands dots join fill_rect
draw_dotted_line box = if too_small box then pure tt else (do
  fill_rect box false
  let parts = dot_commands (dots box) in
      if is_empty parts then pure tt else (do
        run (
            join (bytes " && ")
              (parts ++ (fbink_path ++ bytes " -q -W GC16 -s " ++ region_spec box) ∷ []))
        pure tt))
