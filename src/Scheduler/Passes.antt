-- ===== src/Scheduler/Passes.antt =====
-- The minutes of the hour at which a news pass is asked for.
use atlas.Base.{
  ◌+◌, ◌≤◌, Bool-cases, inl, inr, Option, ℕ, zero, suc, ◌*◌, ◌/◌, ◌%◌, ◌<◌, ◌≡◌, refl, Bool, true,
  false, not, ◌&&◌, ◌||◌, ◌==◌, pos, List, [], ◌∷◌, length, arith, Text,
}
use atlas.Errors.{Error, ok}
use atlas.Config.{Config, minute, rem_ℤ}
use atlas.Config.Validity.{IsValid}
use atlas.Scheduler.{minute_marks, render, news_pass_cron_spec}

abbrev pub contains : List ℕ → ℕ → Bool
contains [] m = false
contains (x ∷ xs) m = x == m || contains xs m

-- A test of the values of a short interval, upwards, decided by evaluation.
every_from : (start count : ℕ) → (test : ℕ → Bool) → Bool
every_from start zero test = true
every_from start (suc count) test =
    let later = every_from (start + 1) count test in test start && later

every_from-test :
    (test : ℕ → Bool) (count start x : ℕ)
    → start ≤ x
    → x < start + count
    → every_from start count test ≡ true
    → test x ≡ true
unfolding every_from
every_from-test test zero start x low high all = absurd (omega arith)
every_from-test test (suc count) start x low high all = elim (Bool-cases (start == x)) [
  | inl here ↦
      let same : start ≡ x = ground arith in
      let first : test start ≡ true = ground arith in rw (← same) first
  | inr later ↦
      every_from-test test count (start + 1) x (ground arith) (ground arith) (ground arith)
]

abbrev same : Bool → Bool → Bool
same true b = b
same false b = not b

abbrev marks_right : ℕ → ℕ → Bool
marks_right k m = same (contains (minute_marks 61 0 k) m) (m % k == 0)

abbrev step_right : ℕ → Bool
step_right k =
    k == 0
    || not (60 % k == 0)
    || every_from 0 60 (marks_right k) && length (minute_marks 61 0 k) == 60 / k

marks_table : every_from 0 61 step_right ≡ true
unfolding every_from minute_marks
marks_table = refl

divisor-le : (k : ℕ) → 0 < k → 60 % k ≡ 0 → k < 61
divisor-le k h d = grind arith

marks_known :
    (k m : ℕ)
    → 0 < k
    → 60 % k ≡ 0
    → m < 60
    → (length (minute_marks 61 0 k) ≡ 60 / k) × (contains (minute_marks 61 0 k) m ≡ (m % k == 0))
marks_known k m h d lt =
    let step = every_from-test step_right 61 0 k (omega arith) (divisor-le k h d) marks_table in
    let every = every_from-test (marks_right k) 60 0 m (omega arith) lt in
    ground (arith, step, every)

spec_built :
    (k : ℕ)
    → 0 < k
    → 60 % k ≡ 0
    → news_pass_cron_spec (pos (k * minute)) ≡ ok (render (minute_marks 61 0 k))
unfolding news_pass_cron_spec rem_ℤ
spec_built zero h d = absurd (omega arith)
spec_built (suc k) h d =
    let small = divisor-le (suc k) h d in
    let whole : suc k * minute / minute ≡ suc k = omega arith in
    let exact : suc k * minute % minute ≡ 0 = omega arith in ground arith

-- For an interval of k minutes that divide the hour, the specification is built, it lists 60 / k
-- minutes, and a minute of the hour is among them exactly if k divides it: the passes fall on the
-- quarter hours of the wall clock for 15 minutes, and never drift across hours.
pub news_pass_cron_spec-marks :
    (k m : ℕ)
    → 0 < k
    → 60 % k ≡ 0
    → m < 60
    → (news_pass_cron_spec (pos (k * minute)) ≡ ok (render (minute_marks 61 0 k)))
      × (length (minute_marks 61 0 k) ≡ 60 / k)
      × (contains (minute_marks 61 0 k) m ≡ (m % k == 0))
news_pass_cron_spec-marks k m h d lt =
    let marks = marks_known k m h d lt in (spec_built k h d, marks.0, marks.1)

-- The interval of a valid configuration is accepted by
-- `NewsPassCronSpec`: the service that starts with it has its passes.
pub news_pass_cron_spec-valid :
    (load : Text → Option Error) (c : Config)
    → IsValid load c
    → (k : ℕ) × (c.news_refresh_interval ≡ pos (k * minute))
      × (news_pass_cron_spec c.news_refresh_interval ≡ ok (render (minute_marks 61 0 k)))
news_pass_cron_spec-valid load c v =
    let k = v.passes.0 in
    let built = spec_built k v.passes.2 v.passes.3 in (k, v.passes.1, rw (v.passes.1) built)
