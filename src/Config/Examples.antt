-- ===== src/Config/Examples.antt =====
-- The validation of configurations at concrete inputs.
use atlas.Base.{◌*◌, ◌≡◌, ◌⊎◌, refl, Text, bytes, text_eq, Option, none, some, pos, if◌then◌else◌}
use atlas.Errors.{Error, ok, err, message}
use atlas.Config.{default, validate, rem_ℤ, minute}
use atlas.Config.Validity.{IsValid, accepted}
use atlas.Config.Decision.{validate-decides}

-- A time zone database that knows one zone.
abbrev pub zones : Text → Option Error
zones name =
    if text_eq name (bytes "Asia/Kolkata") then none else some (message (bytes "unknown time zone"))

program : Unit {0}
unfolding bytes default validate rem_ℤ
program = tt

default_accepted : validate zones default ≡ ok tt
unfolding program text_eq
default_accepted = refl

every_25_minutes :
    validate zones (record default { news_refresh_interval = pos (25 * minute) })
    ≡ err (
        message
          (bytes "news refresh interval must divide 1 hour evenly (e.g. 15m for :00/:15/:30/:45)"))
unfolding program text_eq
every_25_minutes = refl

pub default-IsValid : IsValid zones default
default-IsValid = (accepted zones default refl default_accepted).0

validate-decides_example :
    ((validate zones default ≡ ok tt) × IsValid zones default)
    ⊎ ((e : Error) × (validate zones default ≡ err e) × ¬ IsValid zones default)
validate-decides_example = validate-decides zones default
