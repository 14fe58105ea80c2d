-- ===== src/Kindle/Clock/Show.antt =====
-- internal/kindle/clock.go: the static parts of the clock's screen, the clock and the date on it,
-- and the loop that keeps them up to date.
use atlas.Base.{
  ℕ, ◌+◌, true, ltb_ℤ, List, [], ◌∷◌, ◌++◌, Text, bytes, ℤ, pos, min_ℤ, itoa, text_eq, rune_count,
  is_empty, Option, none, some, if◌then◌else◌,
}
use atlas.Config.{equal_ℤ}
use atlas.Errors.{message}
use atlas.Kindle.Shell.{shell_quote}
use atlas.Kindle.Device.Link.{Op, pure, fail, ◌>>=◌, ◌>>◌, run, within}
use atlas.Kindle.Device.{fbink_path, set_rotation, clear_screen, set_backlight, horizontal}
use atlas.Kindle.Rect.{
  DisplayRect, scaled, region_spec, type_spec_no_pad, draw_text_region, fill_rect, draw_dotted_line,
}
use atlas.Kindle.Clock.{DashboardLayout, new_dashboard_layout}
use atlas.Kindle.Clock.Face.{Moment, time_text, period_text, face}
use atlas.Kindle.Clock.Draw.{
  MetricsSnapshot, ClockOptions, fill_missing_metrics, no_readings, draw_metric, display_size,
}

abbrev pub default_clock_font : Text
unfolding bytes
default_clock_font = bytes "/usr/java/lib/fonts/Helvetica_LT_65_Medium.ttf"

abbrev pub clock_time_font : Text
unfolding bytes
clock_time_font = bytes "/mnt/us/fonts/InstrumentSerif-Regular.ttf"

readings_of : Option MetricsSnapshot → MetricsSnapshot
unfolding no_readings fill_missing_metrics
readings_of none = no_readings
readings_of (some provided) = fill_missing_metrics provided

-- A metric's name, label, number and unit. The units hold the UTF-8 bytes of ° and of µ and ³.
table : MetricsSnapshot → List (Text × Text × Text × Text)
unfolding bytes
table r =
    (bytes "temperature", bytes "TEMP", r.temperature, 194 ∷ 176 ∷ bytes "C")
    ∷ (bytes "pressure", bytes "PRESS", r.pressure, bytes "hPa")
    ∷ (bytes "humidity", bytes "HUMID", r.humidity, bytes "%")
    ∷ (bytes "pm25", bytes "PM2.5", r.pm25, 194 ∷ 181 ∷ bytes "g/m" ++ 194 ∷ 179 ∷ [])
    ∷ []

draw_metrics :
    List (Text × Text × Text × Text)
    → List DisplayRect
    → List DisplayRect
    → Text
    → (w h : ℤ) → Op (Unit {0})
unfolding draw_metric
draw_metrics [] boxes rules font w h = pure tt
draw_metrics (m ∷ ms) [] rules font w h = pure tt
draw_metrics (m ∷ ms) (b ∷ bs) [] font w h = pure tt
draw_metrics (m ∷ ms) (b ∷ bs) (r ∷ rs) font w h = do
  draw_metric m.0 m.1 m.2 m.3 font b r w h
  draw_metrics ms bs rs font w h

draw_dividers : ℕ → List DisplayRect → Op (Unit {0})
unfolding bytes fill_rect itoa
draw_dividers i [] = pure tt
draw_dividers i (d ∷ ds) = do
  within (bytes "clock: metric divider " ++ itoa i) (fill_rect d true)
  draw_dividers (i + 1) ds

-- `drawStaticChrome`
unfoldable pub draw_static_chrome : ClockOptions → DashboardLayout → (w h : ℤ) → Op (Unit {0})
unfolding bytes fill_rect draw_dotted_line draw_text_region draw_metrics draw_dividers readings_of
    table
draw_static_chrome options layout w h =
    let readings = readings_of options.metrics in
    do
      within (bytes "clock: clock rule") (fill_rect layout.clock_rule true)
      within (bytes "clock: divider") (draw_dotted_line layout.divider)
      draw_text_region (bytes "climate") (bytes "Climate: " ++ readings.climate) options.font_path
          (scaled h 9 100) layout.climate w h true
      draw_metrics (table readings) layout.metrics layout.metric_rules options.font_path w h
      draw_dividers 0 layout.metric_dividers

-- The command line of `drawClock`.
unfoldable pub clock_command : Moment → ClockOptions → DashboardLayout → (w h : ℤ) → Text
unfolding bytes fbink_path region_spec type_spec_no_pad shell_quote face time_text period_text
    rune_count
clock_command now options layout w h =
    let box = layout.clock in
    let f = face options.font_size box (rune_count (time_text now)) in
    fbink_path
    ++ bytes " -q -b -B WHITE -k "
    ++ region_spec box
    ++ bytes " && "
    ++ fbink_path
    ++ bytes " -q -b -B WHITE -C BLACK -m -M -t "
    ++ shell_quote (type_spec_no_pad clock_time_font f.font_size f.time_box w h)
    ++ bytes " -- "
    ++ shell_quote (time_text now)
    ++ bytes " && "
    ++ fbink_path
    ++ bytes " -q -b -B WHITE -C BLACK -m -M -t "
    ++ shell_quote (type_spec_no_pad options.font_path f.period_size f.period_box w h)
    ++ bytes " -- "
    ++ shell_quote (period_text now)
    ++ bytes " && "
    ++ fbink_path
    ++ bytes " -q -W GC16 -s "
    ++ region_spec box

-- Format("3:04 PM")
unfoldable pub clock_text : Moment → Text
unfolding bytes time_text period_text
clock_text now = time_text now ++ bytes " " ++ period_text now

unfoldable pub draw_clock : Moment → ClockOptions → DashboardLayout → (w h : ℤ) → Op (Unit {0})
unfolding bytes clock_text clock_command
draw_clock now options layout w h = do
  within (bytes "clock: draw \"" ++ clock_text now ++ bytes "\"")
      (run (clock_command now options layout w h))
  pure tt

unfoldable pub draw_date : Text → ClockOptions → DashboardLayout → (w h : ℤ) → Op (Unit {0})
unfolding bytes draw_text_region
draw_date value options layout w h =
    draw_text_region (bytes "date") value options.font_path (scaled h 9 100) layout.date w h true

-- What `initializeClock` returns.
pub record Prepared : Type 0 where
  pub options : ClockOptions
  pub layout : DashboardLayout
  pub screen_width : ℤ
  pub screen_height : ℤ

unfoldable pub with_font : ClockOptions → ClockOptions
with_font options =
    if is_empty options.font_path
    then record options { font_path = default_clock_font }
    else options

unfoldable pub initialize_clock : ClockOptions → Op Prepared
unfolding bytes with_font set_rotation clear_screen set_backlight horizontal display_size
    new_dashboard_layout draw_static_chrome
initialize_clock options =
    let options = with_font options in
    do
      set_rotation horizontal
      clear_screen
      set_backlight (pos 20)
      size ← display_size
      let layout = new_dashboard_layout size.0 size.1 in
          let most = scaled layout.clock.height 98 100 in
          let wanted = if equal_ℤ options.font_size (pos 0) then most else options.font_size in
          let final = record options { font_size = min_ℤ wanted most } in
          if ltb_ℤ wanted (pos 1)
          then fail (message (bytes "clock: font size must be positive"))
          else (do
            draw_static_chrome final layout (pos size.0) (pos size.1)
            pure (record {
              options = final;
              layout = layout;
              screen_width = pos size.0;
              screen_height = pos size.1;
            }))

-- `ShowClockOnce`
unfoldable pub show_clock_once : ClockOptions → Moment → Op (Unit {0})
unfolding initialize_clock draw_date draw_clock
show_clock_once options now = do
  p ← initialize_clock options
  draw_date now.day p.options p.layout p.screen_width p.screen_height
  draw_clock now p.options p.layout p.screen_width p.screen_height

-- One round of the loop of `RunClock`: what has not changed is not drawn again.
unfoldable pub refresh : Prepared → (last_date last_clock : Text) → Moment → Op (Unit {0})
unfolding draw_date draw_clock clock_text text_eq
refresh p last_date last_clock now = do
  if text_eq now.day last_date
      then pure tt
      else draw_date now.day p.options p.layout p.screen_width p.screen_height
  if text_eq (clock_text now) last_clock
      then pure tt
      else draw_clock now p.options p.layout p.screen_width p.screen_height

-- The loop of `RunClock` over the moments at which its timer fires, until its context is done.
unfoldable pub refresh_all : Prepared → (last_date last_clock : Text) → List Moment → Op (Unit {0})
unfolding refresh clock_text
refresh_all p last_date last_clock [] = pure tt
refresh_all p last_date last_clock (now ∷ later) = do
  refresh p last_date last_clock now
  refresh_all p now.day (clock_text now) later

unfoldable pub run_clock : ClockOptions → List Moment → Op (Unit {0})
unfolding initialize_clock refresh_all
run_clock options moments = do p ← initialize_clock options; refresh_all p [] [] moments
