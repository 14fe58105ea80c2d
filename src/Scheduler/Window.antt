-- ===== src/Scheduler/Window.antt =====
-- The active window against the cron jobs that open and close it.
use atlas.Base.{
  ℕ, ◌+◌, ◌*◌, ◌%◌, ◌<◌, ◌≡◌, ◌≢◌, Bool, true, false, not, ◌&&◌, ◌||◌, ltb, ◌==◌, arith,
  if◌then◌else◌,
}
use atlas.Config.{minute}
use atlas.Scheduler.{date, is_inside_active_window}

-- Whether the service is to be on in the given minute of a day, `extra` nanoseconds into it.
abbrev pub inside_at : (midnight extra sh sm eh em minute_of_day : ℕ) → Bool
inside_at midnight extra sh sm eh em t =
    is_inside_active_window midnight (midnight + t * minute + extra) sh sm eh em

-- The window is half open in minutes: only the minute of the day counts.
inside_at-minutes :
    (midnight extra sh sm eh em t : ℕ)
    → extra < minute
    → inside_at midnight extra sh sm eh em t ≡ (
        if ltb (sh * 60 + sm) (eh * 60 + em)
        then not (ltb t (sh * 60 + sm)) && ltb t (eh * 60 + em)
        else not (ltb t (sh * 60 + sm)) || ltb t (eh * 60 + em))
unfolding is_inside_active_window date
inside_at-minutes midnight extra sh sm eh em t x = ground arith

-- From one minute of the day to the next, past midnight too, the window opens exactly in the
-- minute of the start job, closes exactly in the minute of the shutdown job, and stays as it was
-- in every other, at any instant of the two minutes. So a process that starts at any time finds
-- the state that the jobs of its past would have left.
pub window-follows_cron :
    (midnight midnight' extra extra' sh sm eh em t : ℕ)
    → sh < 24
    → sm < 60
    → eh < 24
    → em < 60
    → sh * 60 + sm ≢ eh * 60 + em
    → t < 1440
    → extra < minute
    → extra' < minute
    → let next = (t + 1) % 1440 in
      inside_at midnight' extra' sh sm eh em next ≡ (
        if next == sh * 60 + sm
        then true
        else if next == eh * 60 + em
        then false
        else inside_at midnight extra sh sm eh em t)
window-follows_cron midnight midnight' extra extra' sh sm eh em t a b c d differ in_day x x' =
    ground (
      arith,
      inside_at-minutes midnight extra sh sm eh em t,
      inside_at-minutes midnight' extra' sh sm eh em ((t + 1) % 1440),
    )
