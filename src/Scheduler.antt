-- ===== src/Scheduler.antt =====
-- internal/scheduler/scheduler.go: the daily active window and the cron jobs of the service.
pub mod Window
pub mod Passes
mod Examples
use atlas.Base.{
  div_ℤ, ℕ, zero, suc, ◌+◌, ◌*◌, ◌/◌, ◌%◌, Bool, true, false, not, ◌&&◌, ◌||◌, ltb, leb_ℤ, ltb_ℤ, ℤ,
  pos, pos_part, List, [], ◌∷◌, ◌++◌, map, Text, bytes, itoa, join, if◌then◌else◌,
}
use atlas.Errors.{Result, ok, err, panic, ◌>>=◌, ◌>>◌, fail_if, message}
use atlas.Config.{minute, hour, is_zero, rem_ℤ}

-- time.Date on the day whose midnight is the first argument, in nanoseconds, where the zone's
-- clock does not change on that day.
unfoldable pub date : ℕ → ℕ → ℕ → ℕ
date midnight h m = midnight + (h * 60 + m) * minute

-- `IsInsideActiveWindow`, at the instant `now` of that day
unfoldable pub is_inside_active_window : (midnight now sh sm eh em : ℕ) → Bool
is_inside_active_window midnight now sh sm eh em =
    let start = date midnight sh sm in
    let stop = date midnight eh em in
    if ltb start stop
    then not (ltb now start) && ltb now stop
    else not (ltb now start) || ltb now stop

-- The loop `for m := 0; m < 60; m += minutes`, from `m`; a step of at least one minute passes 60
-- within 60 rounds, which is the fuel given.
unfoldable pub minute_marks : ℕ → ℕ → ℕ → List ℕ
minute_marks zero m step = []
minute_marks (suc f) m step =
    let rest = minute_marks f (m + step) step in if ltb m 60 then m ∷ rest else []

-- The cron expression of some minutes of every hour.
pub render : List ℕ → Text
unfolding bytes itoa join
render marks = join (bytes ",") (map itoa marks) ++ bytes " * * * *"

-- `NewsPassCronSpec`
unfoldable pub news_pass_cron_spec : ℤ → Result Text
unfolding render bytes
news_pass_cron_spec interval = do
  fail_if (leb_ℤ interval (pos 0) || ltb_ℤ (pos hour) interval)
      (message (bytes "news pass interval must be in (0, 1h]"))
  rest ← rem_ℤ interval (pos minute)
  fail_if (not (is_zero rest))
      (message (bytes "news pass interval must be a whole number of minutes"))
  left ← rem_ℤ (pos 60) (div_ℤ interval minute)
  fail_if (not (is_zero left)) (message (bytes "news pass interval must divide 1 hour evenly"))
  ok (render (minute_marks 61 0 (pos_part (div_ℤ interval minute))))

-- What a cron job asks of the supervisor.
pub data Request : Type 0 where
  scheduled_start scheduled_shutdown news_pass : Request

-- The cron expression of one minute of every day.
daily : ℕ → ℕ → Text
unfolding bytes itoa
daily h m = itoa m ++ bytes " " ++ itoa h ++ bytes " * * *"

-- `New`: the jobs that are added, in order. `add_func` is what the cron library says of a spec.
unfoldable pub new :
    (Text → Result (Unit {0})) → ℤ → (sh sm eh em : ℕ) → Result (List (Text × Request))
unfolding daily
new add_func news_every sh sm eh em = do
  spec ← news_pass_cron_spec news_every
  add_func (daily sh sm)
  add_func (daily eh em)
  add_func spec
  ok ((daily sh sm, scheduled_start) ∷ (daily eh em, scheduled_shutdown) ∷ (spec, news_pass) ∷ [])
