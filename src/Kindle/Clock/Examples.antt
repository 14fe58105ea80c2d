-- ===== src/Kindle/Clock/Examples.antt =====
-- The clock's screen at concrete inputs.
use atlas.Base.{◌≡◌, refl, true, bytes, pos, ◌+ℤ◌, arith, ltb_ℤ, itoa, none, has_prefix, atoi}
use atlas.Errors.{ok}
use atlas.Kindle.Device.{fbink_path}
use atlas.Kindle.Device.Link.{Environment, new, run}
use atlas.Kindle.Clock.{new_dashboard_layout}
use atlas.Kindle.Clock.Layout.{WellPlaced, new_dashboard_layout-WellPlaced}
use atlas.Kindle.Clock.Face.{Moment, face, time_text}
use atlas.Kindle.Clock.Draw.{display_size, find_size, digits_front, size_of_output, positive_size}

abbrev half_past_noon : Moment
unfolding bytes
half_past_noon = record { hour = 12; minute = 30; day = bytes "Monday, August 3" }

noon_text : time_text half_past_noon ≡ bytes "12:30"
unfolding time_text bytes itoa
noon_text = refl

-- A Kindle that tells the size of its screen.
abbrev kindle : Environment
kindle = record {
  context_error = λ s. none;
  answer = λ s line. (bytes "viewWidth=1448;screenWidth=1448;screenHeight=1072;DPI=300;", none);
  can_upload = true;
  upload_error = λ s path contents. none;
}

size_read : (display_size kindle new).0 ≡ ok (1448, 1072)
unfolding display_size fbink_path new run find_size digits_front size_of_output positive_size atoi
    bytes has_prefix
size_read = refl

-- The boxes of a time of five characters and of its AM or PM overlap on this screen.
boxes_overlap :
    let f = face (pos 577) (new_dashboard_layout 1448 1072).clock 5 in
    ltb_ℤ f.period_box.left (f.time_box.left +ℤ f.time_box.width) ≡ true
unfolding face new_dashboard_layout
boxes_overlap = refl

new_dashboard_layout-WellPlaced_example : WellPlaced 1448 1072 (new_dashboard_layout 1448 1072)
new_dashboard_layout-WellPlaced_example =
    new_dashboard_layout-WellPlaced 1448 1072 (omega arith) (omega arith)
