-- ===== src/Display.antt =====
-- internal/kindledisplay/controller.go: the controller that the supervisor and the news worker show
-- things through. It keeps the device and whether the display is running.
pub mod Commands
mod Panel
mod Examples
use atlas.Base.{
  Bool, true, false, ltb_ℤ, List, [], ◌∷◌, ◌++◌, Text, bytes, ℤ, pos, Option, none, some,
  if◌then◌else◌,
}
use atlas.Errors.{Error, Result, ok, err, panic, sentinel, not_running}
use atlas.Alert.{Alert, Severity, info, warning, critical}
use atlas.Kindle.Device.Link.{Environment, Device, Op as DeviceOp}
use atlas.Kindle.Device.{
  horizontal, set_rotation, clear_screen, set_backlight, get_brightness, show_title,
}
use atlas.Kindle.Clock.Draw.{ClockOptions}
use atlas.Kindle.Clock.Face.{Moment}
use atlas.Kindle.Clock.Show.{show_clock_once, run_clock}

-- `metrics` is what `clockOptions` passes on; the clock's location is in the moments it shows.
pub record Controller : Type 0 where
  pub device : Device
  pub metrics : ClockOptions
  pub running : Bool

abbrev pub Op : Type 0 → Type 0
Op A = Environment → Controller → Result A × Controller

abbrev pub pure : {A : Type 0} → A → Op A
pure a w c = (ok a, c)

abbrev pub fail : {A : Type 0} → Error → Op A
fail e w c = (err e, c)

abbrev pub continue :
    {A B : Type 0} → (A → Op B) → Environment → Result A × Controller → Result B × Controller
continue f w (ok a, c) = f a w c
continue f w (err e, c) = (err e, c)
continue f w (panic, c) = (panic, c)

infixl 5 ◌>>=◌ ◌>>◌
abbrev pub ◌>>=◌ : {A B : Type 0} → Op A → (A → Op B) → Op B
◌>>=◌ m f w c = continue f w (m w c)

abbrev pub ◌>>◌ : {A B : Type 0} → Op A → Op B → Op B
m >> k = m >>= λ _. k

abbrev put_device : {A : Type 0} → Controller → Result A × Device → Result A × Controller
put_device c (a, d) = (a, record c { device = d })

-- A call of a method of the device.
abbrev pub on_device : {A : Type 0} → DeviceOp A → Op A
on_device m w c = put_device c (m w c.device)

abbrev pub set_running : Bool → Op (Unit {0})
set_running b w c = (ok tt, record c { running = b })

-- `if err := ctx.Err(); err != nil { return err }`
unfoldable pub check_context : Op (Unit {0})
check_context w c = elim (w.context_error c.device.sent) [ none ↦ (ok tt, c) | some e ↦ (err e, c) ]

-- `if !running { return display.ErrNotRunning }`
unfoldable pub check_running : Op (Unit {0})
check_running w c = if c.running then (ok tt, c) else (err (sentinel not_running), c)

-- `NewWithMetrics`, of which `New` and `NewWithLocation` are cases
unfoldable pub new_with_metrics : Device → ClockOptions → Controller
new_with_metrics device metrics = record { device = device; metrics = metrics; running = false }

-- The rest of `Start`, from the brightness read
unfoldable pub light_up : ℤ → Op (Unit {0})
unfolding horizontal set_rotation clear_screen set_backlight
light_up brightness = if ltb_ℤ (pos 0) brightness then set_running true else (do
  on_device (set_rotation horizontal)
  on_device clear_screen
  on_device (set_backlight (pos 20))
  set_running true)

unfoldable pub start : Op (Unit {0})
unfolding check_context get_brightness light_up
start = do check_context; brightness ← on_device get_brightness; light_up brightness

unfoldable pub stop : Op (Unit {0})
unfolding check_context clear_screen set_backlight
stop = do
  check_context
  on_device clear_screen
  on_device (set_backlight (pos 0))
  set_running false

unfoldable pub is_running : Op Bool
unfolding check_context get_brightness
is_running = do
  check_context
  brightness ← on_device get_brightness
  set_running (ltb_ℤ (pos 0) brightness)
  pure (ltb_ℤ (pos 0) brightness)

unfoldable pub show_clock : Moment → Op (Unit {0})
unfolding check_context check_running show_clock_once
show_clock now w c =
    (do check_context; check_running; on_device (show_clock_once c.metrics now)) w c

-- `RunClock` over the moments at which the clock's timer fires before its context is done.
unfoldable pub run_clock_until : List Moment → Op (Unit {0})
unfolding check_context check_running run_clock
run_clock_until moments w c =
    (do check_context; check_running; on_device (run_clock c.metrics moments)) w c

-- The message with the sign of its severity; the warning sign is three bytes of UTF-8.
unfoldable pub marked_message : Alert → Text
unfolding bytes
marked_message a = elim a.severity [
  | info ↦ a.message
  | warning ↦ bytes "!  " ++ a.message
  | critical ↦ 226 ∷ 154 ∷ 160 ∷ bytes "  " ++ a.message
]

unfoldable pub show : Alert → Op (Unit {0})
unfolding check_context check_running clear_screen show_title marked_message
show a = do
  check_context
  check_running
  on_device clear_screen
  on_device (show_title (marked_message a))
  check_context

unfoldable pub clear : Op (Unit {0})
unfolding check_context clear_screen
clear = do check_context; on_device clear_screen
