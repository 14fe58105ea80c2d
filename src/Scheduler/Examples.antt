-- ===== src/Scheduler/Examples.antt =====
-- The active window and the news passes at concrete inputs.
use atlas.Base.{◌+◌, ◌*◌, ◌≡◌, refl, true, false, bytes, pos, arith, ◌==◌, if◌then◌else◌}
use atlas.Errors.{ok}
use atlas.Config.{minute, rem_ℤ}
use atlas.Scheduler.{minute_marks, render, news_pass_cron_spec}
use atlas.Scheduler.Window.{inside_at, window-follows_cron}

every_15_minutes : news_pass_cron_spec (pos (15 * minute)) ≡ ok (bytes "0,15,30,45 * * * *")
unfolding news_pass_cron_spec rem_ℤ minute_marks render bytes
every_15_minutes = refl

window-follows_cron_example : inside_at 0 0 22 30 6 0 0 ≡ (
    if 0 == 22 * 60 + 30
    then true
    else if 0 == 6 * 60 + 0
    then false
    else inside_at 0 5 22 30 6 0 1439)
window-follows_cron_example =
    window-follows_cron 0 0 5 0 22 30 6 0 1439 (omega arith) (omega arith) (omega arith)
      (omega arith) (omega arith) (omega arith) (omega arith) (omega arith)
