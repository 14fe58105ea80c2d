-- ===== src/App.antt =====
-- app.go: the program with three modes, from its arguments to its end.
mod Cleanup
use atlas.Base.{
  ℕ, ◌%◌, Bool, true, false, ◌&&◌, ◌||◌, not, leb_ℤ, ◌==◌, List, [], ◌∷◌, ◌++◌, Text, bytes,
  text_eq, ℤ, pos, trim_space, is_empty, Option, none, some, if◌then◌else◌,
}
use atlas.Errors.{
  Error, Result, ok, err, panic, message, wrapped, fail_if, with_prefix, ◌>>=◌, ◌>>◌,
}
use atlas.Kindle.Device.Link.{Op, Device, Environment}
use atlas.Kindle.Device.{clear_screen, set_backlight}

pub data Mode : Type 0 where
  clock story news : Mode

-- The one argument left after the flags; anything else prints the usage and exits.
unfoldable pub mode_of : List Text → Option Mode
unfolding bytes text_eq
mode_of (a ∷ []) =
    if text_eq a (bytes "clock")
    then some clock
    else if text_eq a (bytes "story")
    then some story
    else if text_eq a (bytes "news")
    then some news
    else none
mode_of args = none

unfoldable pub check_flags : (news_queue_limit genre_hold story_hold : ℤ) → Result (Unit {0})
unfolding bytes
check_flags news_queue_limit genre_hold story_hold =
    fail_if (leb_ℤ news_queue_limit (pos 0) || leb_ℤ genre_hold (pos 0) || leb_ℤ story_hold (pos 0))
      (message (bytes "news-queue-limit, genre-hold, and story-hold must be positive"))

-- Of the permissions `0o077` are the lowest six bits; a file that cannot be looked at is refused too.
abbrev closed : Result ℕ → Bool
closed (ok mode) = mode % 64 == 0
closed (err e) = false
closed panic = false

-- `contents` is what os.ReadFile gives.
unfoldable pub redis_password :
    (file : Text) → (stat : Result ℕ) → (contents : Result Text) → Result Text
unfolding bytes trim_space
redis_password file stat contents =
    if is_empty file
    then ok []
    else (fail_if (not (closed stat))
          (message (bytes "Redis password file must exist and have no group/other permissions"))
        >> (with_prefix (bytes "read Redis password") contents >>= λ data_read.
            ok (trim_space data_read)))

abbrev settled : {A : Type 0} → Result A × Device → Result (Unit {0}) × Device
settled (ok a, d) = (ok tt, d)
settled (err e, d) = (ok tt, d)
settled (panic, d) = (panic, d)

-- `_ = …`
abbrev ignored : {A : Type 0} → Op A → Op (Unit {0})
ignored m w d = settled (m w d)

abbrev then_dark : Environment → Result (Unit {0}) × Device → Result (Unit {0}) × Device
then_dark w (ok u, d) = ignored (set_backlight (pos 0)) w d
then_dark w (err e, d) = ignored (set_backlight (pos 0)) w d
then_dark w (panic, d) = (panic, d)

-- `cleanupDevice`
unfoldable pub cleanup_device : Op (Unit {0})
unfolding clear_screen set_backlight
cleanup_device w d = then_dark w (ignored clear_screen w d)

-- How the mode ends: whether the device is cleaned up, and the error that the program exits with.
pub record Ending : Type 0 where
  pub cleaned_up : Bool
  pub fatal : Option Error

-- A mode that returns is cleaned up after by the deferred call.
abbrev mode_ended : Text → Option Error → Ending
mode_ended what none = record { cleaned_up = true; fatal = none }
mode_ended what (some e) = record { cleaned_up = true; fatal = some (wrapped what e) }

abbrev news_mode_ended : (connected shown : Option Error) → Ending
news_mode_ended (some e) shown = record {
  cleaned_up = true;
  fatal = some (wrapped (bytes "connect redis") e);
}
news_mode_ended none shown = mode_ended (bytes "news mode") shown

abbrev with_password : (connected shown : Option Error) → Result Text → Ending
with_password connected shown (ok password) = news_mode_ended connected shown
with_password connected shown (err e) = record { cleaned_up = false; fatal = some e }
with_password connected shown panic = record { cleaned_up = false; fatal = none }

-- From the device on: what the mode's function returned, the password of Redis, and whether Redis could
-- be reached.
unfoldable pub run_mode :
    Mode
    → (returned : Option Error) → (password : Result Text) → (connected : Option Error) → Ending
unfolding bytes
run_mode clock returned password connected = mode_ended (bytes "clock mode") returned
run_mode story returned password connected = mode_ended (bytes "story mode") returned
run_mode news returned password connected = with_password connected returned password
