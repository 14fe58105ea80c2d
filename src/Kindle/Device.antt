-- ===== src/Kindle/Device.antt =====
-- internal/kindle/commands.go: a `Device` and the commands it sends to the Kindle.
pub mod Link
pub mod Returning
pub mod Safety
mod Examples
use atlas.Base.{
  ℕ, ◌+◌, ◌*◌, Bool, true, false, ◌&&◌, ◌||◌, not, ltb_ℤ, ltb, List, [], ◌∷◌, ◌++◌, Text, bytes,
  text_eq, trim_space, to_lower, Option, none, some, ℤ, pos, itoa_ℤ, atoi, atoi_error, quoted,
  if◌then◌else◌,
}
use atlas.Errors.{Error, message, wrapped, ok, err}
use atlas.Kindle.Shell.{shell_quote}
use atlas.Kindle.Device.Link.{Op, pure, fail, ◌>>=◌, ◌>>◌, run, within}

-- `UptimeContext`, `BatteryContext`
unfoldable pub uptime : Op Text
unfolding bytes trim_space
uptime = do output ← within (bytes "get uptime") (run (bytes "uptime")); pure (trim_space output)

unfoldable pub battery : Op Text
unfolding bytes trim_space
battery = do
  output ← within (bytes "get battery") (run (bytes "gasgauge-info -c"))
  pure (trim_space output)

unfoldable pub vertical : Text
unfolding bytes
vertical = bytes "vertical"

unfoldable pub horizontal : Text
unfolding bytes
horizontal = bytes "horizontal"

-- `rotationCodes`
unfoldable pub rotation_codes : List (Text × Text)
unfolding vertical horizontal
rotation_codes = (vertical, b'3' ∷ []) ∷ (horizontal, b'0' ∷ []) ∷ []

unfoldable pub code_of : List (Text × Text) → Text → Option Text
unfolding text_eq
code_of [] name = none
code_of (c ∷ cs) name = if text_eq name c.0 then some c.1 else code_of cs name

unfoldable pub name_of : List (Text × Text) → Text → Option Text
unfolding text_eq
name_of [] code = none
name_of (c ∷ cs) code = if text_eq code c.1 then some c.0 else name_of cs code

-- `mapRotation`: the codes are different, so the order of the map does not matter.
unfoldable pub map_rotation : Text → Option Text
unfolding name_of trim_space rotation_codes
map_rotation value = name_of rotation_codes (trim_space value)

unfoldable pub rotation_code : Text → Option Text
unfolding code_of to_lower trim_space rotation_codes
rotation_code name = code_of rotation_codes (to_lower (trim_space name))

unfoldable pub rotation_state : Op Text
unfolding bytes quoted trim_space
rotation_state = do
  output ← within (bytes "get rotation state") (run (bytes "cat /sys/class/graphics/fb0/rotate"))
  elim (map_rotation output) [
    | none ↦
        fail (message (bytes "get rotation state: unexpected value " ++ quoted (trim_space output)))
    | some name ↦ pure name
  ]

unfoldable pub set_rotation : Text → Op (Unit {0})
unfolding bytes quoted
set_rotation state = elim (rotation_code state) [
  | none ↦ fail (
      message (
        bytes "set rotation: invalid state "
        ++ quoted state
        ++ bytes " (want \"vertical\" or \"horizontal\")"))
  | some code ↦ do
    within (bytes "set rotation")
        (run (bytes "echo " ++ code ++ bytes " > /sys/class/graphics/fb0/rotate"))
    pure tt
]

unfoldable pub fbink_path : Text
unfolding bytes
fbink_path = bytes "/mnt/us/usbnet/bin/fbink"

-- The command line of the four functions that show a text, for the given type size and place.
unfoldable pub show_command : (place value : Text) → Text
unfolding bytes fbink_path
show_command place value =
    fbink_path
    ++ bytes " -q -t regular=/mnt/us/fonts/InstrumentSerif-Regular.ttf,"
    ++ place
    ++ bytes " -m -- "
    ++ shell_quote value

unfoldable pub show_title : Text → Op (Unit {0})
unfolding bytes
show_title title = do
  within (bytes "show title")
      (run (show_command (bytes "px=200,top=0,left=0,right=0,bottom=0") title))
  pure tt

unfoldable pub show_domains : Text → Op (Unit {0})
unfolding bytes
show_domains domains = do
  within (bytes "show domains")
      (run (show_command (bytes "px=130,top=400,left=0,right=0,bottom=0") domains))
  pure tt

unfoldable pub show_description : Text → Op (Unit {0})
unfolding bytes
show_description description = do
  within (bytes "show description")
      (run (show_command (bytes "px=150,top=500,left=0,right=0,bottom=0") description))
  pure tt

unfoldable pub show_genre : Text → Op (Unit {0})
unfolding bytes
show_genre genre = do
  within (bytes "show genre")
      (run (show_command (bytes "px=280,top=250,left=0,right=0,bottom=250") genre))
  pure tt

unfoldable pub clear_screen : Op (Unit {0})
unfolding bytes
clear_screen = do
  within (bytes "clear screen") (run (fbink_path ++ bytes " -q -c -f -W GC16"))
  pure tt

unfoldable pub set_backlight : ℤ → Op (Unit {0})
unfolding bytes itoa_ℤ
set_backlight level =
    if ltb_ℤ level (pos 0) || ltb_ℤ (pos 24) level
    then fail
        (message (bytes "set backlight: level " ++ itoa_ℤ level ++ bytes " out of range 0..24"))
    else (do
      within (bytes "set backlight")
          (run (bytes "lipc-set-prop com.lab126.powerd flIntensity " ++ itoa_ℤ level))
      pure tt)

-- The rest of `GetBrightnessContext`, from the output of the command
unfoldable pub parse_brightness : Text → Op ℤ
unfolding bytes atoi atoi_error quoted trim_space
parse_brightness output = elim (atoi (trim_space output)) [
  | none ↦ fail (
      wrapped (bytes "get brightness: parse " ++ quoted (trim_space output)) (
        message (
          bytes "strconv.Atoi: parsing "
          ++ quoted (trim_space output)
          ++ bytes ": "
          ++ atoi_error (trim_space output))))
  | some value ↦ pure value
]

unfoldable pub get_brightness : Op ℤ
unfolding bytes parse_brightness
get_brightness = do
  output ←
      within (bytes "get brightness") (run (bytes "lipc-get-prop com.lab126.powerd flIntensity"))
  parse_brightness output
