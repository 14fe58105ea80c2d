-- ===== src/Workflow/Passes.antt =====
-- internal/newsworkflow/worker.go: what every run of the worker keeps to: no signal is lost, a pass of
-- the news starts only on a signal and after the clock, and nothing runs beside it.
use atlas.Base.{
  Bool, true, false, ◌||◌, not, List, [], ◌∷◌, ◌++◌, Option, none, some, ◌≡◌, ap, subst, ◌∙◌, arith,
  if◌then◌else◌,
}
use atlas.Errors.{Error}
use atlas.Workflow.{
  show_news_cycle, run_clock, show_clock, Event, checked, done, refresh, clock_ended, painted,
  cycle_ended, Phase, top, painting, repainted, live, stopping, waiting, cycling, draining,
  returned, Entry, event, call, Worker, failure, start, react, step, move, Reach, started, stepped,
}

-- Whether a signal has come since the last pass started.
unfoldable pub owed : List Entry → Bool
owed [] = false
owed (event refresh ∷ l) = true
owed (event (checked o) ∷ l) = owed l
owed (event (done e) ∷ l) = owed l
owed (event (clock_ended o) ∷ l) = owed l
owed (event (painted o) ∷ l) = owed l
owed (event (cycle_ended o) ∷ l) = owed l
owed (call show_news_cycle ∷ l) = false
owed (call run_clock ∷ l) = owed l
owed (call show_clock ∷ l) = owed l

-- Whether the clock has been called, and has not returned.
unfoldable pub clock_on : List Entry → Bool
clock_on [] = false
clock_on (event refresh ∷ l) = clock_on l
clock_on (event (checked o) ∷ l) = clock_on l
clock_on (event (done e) ∷ l) = clock_on l
clock_on (event (clock_ended o) ∷ l) = false
clock_on (event (painted o) ∷ l) = false
clock_on (event (cycle_ended o) ∷ l) = clock_on l
clock_on (call show_news_cycle ∷ l) = clock_on l
clock_on (call run_clock ∷ l) = true
clock_on (call show_clock ∷ l) = true

-- Whether a pass has been started, and has not returned.
unfoldable pub news_on : List Entry → Bool
news_on [] = false
news_on (event refresh ∷ l) = news_on l
news_on (event (checked o) ∷ l) = news_on l
news_on (event (done e) ∷ l) = news_on l
news_on (event (clock_ended o) ∷ l) = news_on l
news_on (event (painted o) ∷ l) = news_on l
news_on (event (cycle_ended o) ∷ l) = false
news_on (call show_news_cycle ∷ l) = true
news_on (call run_clock ∷ l) = news_on l
news_on (call show_clock ∷ l) = news_on l

-- Whether the clock has been called since the last pass started.
unfoldable pub clock_since : List Entry → Bool
clock_since [] = false
clock_since (event e ∷ l) = clock_since l
clock_since (call show_news_cycle ∷ l) = false
clock_since (call run_clock ∷ l) = true
clock_since (call show_clock ∷ l) = true

-- How a pass may start: on a signal that has not been answered, with nothing running, and after the
-- clock, if there is one.
pub record MayStart (has_clock : Bool) (l : List Entry) : Type 0 where
  pub asked : owed l ≡ true
  pub clock_off : clock_on l ≡ false
  pub news_off : news_on l ≡ false
  pub restored : clock_since l || not has_clock ≡ true

abbrev pub Sound : Bool → List Entry → Type 0
Sound has_clock [] = Unit
Sound has_clock (event e ∷ l) = Sound has_clock l
Sound has_clock (call show_news_cycle ∷ l) = MayStart has_clock l × Sound has_clock l
Sound has_clock (call run_clock ∷ l) = (news_on l ≡ false) × Sound has_clock l
Sound has_clock (call show_clock ∷ l) = (news_on l ≡ false) × Sound has_clock l

-- Where a signal that has come is kept, and that the worker does not wait for another one then.
abbrev pub Kept : Phase → Bool → Type 0
Kept (top pending) b = b ≡ pending
Kept painting b = b ≡ true
Kept repainted b = b ≡ true
Kept live b = b ≡ false
Kept (stopping none) b = b ≡ true
Kept (stopping (some e)) b = Unit
Kept waiting b = b ≡ false
Kept (cycling pending) b = b ≡ pending
Kept (draining e) b = Unit
Kept (returned o) b = Unit

abbrev clock_in : Phase → Bool
clock_in (top pending) = false
clock_in painting = true
clock_in repainted = false
clock_in live = true
clock_in (stopping o) = true
clock_in waiting = false
clock_in (cycling pending) = false
clock_in (draining e) = false
clock_in (returned o) = false

abbrev news_in : Phase → Bool
news_in (top pending) = false
news_in painting = false
news_in repainted = false
news_in live = false
news_in (stopping o) = false
news_in waiting = false
news_in (cycling pending) = true
news_in (draining e) = true
news_in (returned o) = false

abbrev Restored : Bool → Phase → Bool → Type 0
Restored has_clock (top pending) b = Unit
Restored has_clock painting b = b || not has_clock ≡ true
Restored has_clock repainted b = b || not has_clock ≡ true
Restored has_clock live b = b || not has_clock ≡ true
Restored has_clock (stopping o) b = b || not has_clock ≡ true
Restored has_clock waiting b = b || not has_clock ≡ true
Restored has_clock (cycling pending) b = Unit
Restored has_clock (draining e) b = Unit
Restored has_clock (returned o) b = Unit

pub record Orderly (has_clock : Bool) (p : Phase) (l : List Entry) : Type 0 where
  pub kept : Kept p (owed l)
  pub clock : clock_on l ≡ clock_in p
  pub news : news_on l ≡ news_in p
  pub restored : Restored has_clock p (clock_since l)
  pub sound : Sound has_clock l

abbrev OrderlyIn : Bool → Option Worker → Type 0
OrderlyIn has_clock none = Unit
OrderlyIn has_clock (some w) = Orderly has_clock w.phase w.log

abbrev After : Bool → List Entry → Event → Option (Phase × List Entry) → Type 0
After has_clock l e none = Unit
After has_clock l e (some (p, calls)) = Orderly has_clock p (calls ++ event e ∷ l)

failing :
    (has_clock b : Bool) (l : List Entry) (e : Event) (p q : Phase)
    → Orderly has_clock p (event e ∷ l)
    → Orderly has_clock q (event e ∷ l)
    → After has_clock l e (some (if b then (p, []) else (q, [])))
failing has_clock true l e p q hp hq = hp
failing has_clock false l e p q hp hq = hq

react-Orderly :
    (has_clock : Bool) (p : Phase) (e : Event) (l : List Entry)
    → Orderly has_clock p l
    → After has_clock l e (react has_clock p e)
unfolding react owed clock_on news_on clock_since
react-Orderly true (top true) (checked none) l h = ground (arith, h)
react-Orderly false (top true) (checked none) l h = ground (arith, h)
react-Orderly has_clock (top true) (checked (some y)) l h = ground (arith, h)
react-Orderly has_clock (top true) (done y) l h = tt
react-Orderly has_clock (top true) refresh l h = tt
react-Orderly has_clock (top true) (clock_ended r) l h = tt
react-Orderly has_clock (top true) (painted r) l h = tt
react-Orderly has_clock (top true) (cycle_ended r) l h = tt
react-Orderly true (top false) (checked none) l h = ground (arith, h)
react-Orderly false (top false) (checked none) l h = ground (arith, h)
react-Orderly has_clock (top false) (checked (some y)) l h = ground (arith, h)
react-Orderly has_clock (top false) (done y) l h = tt
react-Orderly has_clock (top false) refresh l h = tt
react-Orderly has_clock (top false) (clock_ended r) l h = tt
react-Orderly has_clock (top false) (painted r) l h = tt
react-Orderly has_clock (top false) (cycle_ended r) l h = tt
react-Orderly has_clock painting (checked none) l h = tt
react-Orderly has_clock painting (checked (some y)) l h = tt
react-Orderly has_clock painting (done y) l h = tt
react-Orderly has_clock painting refresh l h = tt
react-Orderly has_clock painting (clock_ended r) l h = tt
react-Orderly has_clock painting (painted r) l h =
    failing has_clock (failure r) l (painted r) (returned r) repainted (ground (arith, h))
      (ground (arith, h))
react-Orderly has_clock painting (cycle_ended r) l h = tt
react-Orderly has_clock repainted (checked none) l h = ground (arith, h)
react-Orderly has_clock repainted (checked (some y)) l h = ground (arith, h)
react-Orderly has_clock repainted (done y) l h = tt
react-Orderly has_clock repainted refresh l h = tt
react-Orderly has_clock repainted (clock_ended r) l h = tt
react-Orderly has_clock repainted (painted r) l h = tt
react-Orderly has_clock repainted (cycle_ended r) l h = tt
react-Orderly has_clock live (checked none) l h = tt
react-Orderly has_clock live (checked (some y)) l h = tt
react-Orderly has_clock live (done y) l h = ground (arith, h)
react-Orderly has_clock live refresh l h = ground (arith, h)
react-Orderly has_clock live (clock_ended r) l h =
    failing has_clock (failure r) l (clock_ended r) (returned r) waiting (ground (arith, h))
      (ground (arith, h))
react-Orderly has_clock live (painted r) l h = tt
react-Orderly has_clock live (cycle_ended r) l h = tt
react-Orderly has_clock (stopping none) (checked none) l h = tt
react-Orderly has_clock (stopping none) (checked (some y)) l h = tt
react-Orderly has_clock (stopping none) (done y) l h = tt
react-Orderly has_clock (stopping none) refresh l h = tt
react-Orderly has_clock (stopping none) (clock_ended r) l h = ground (arith, h)
react-Orderly has_clock (stopping none) (painted r) l h = tt
react-Orderly has_clock (stopping none) (cycle_ended r) l h = tt
react-Orderly has_clock (stopping (some x)) (checked none) l h = tt
react-Orderly has_clock (stopping (some x)) (checked (some y)) l h = tt
react-Orderly has_clock (stopping (some x)) (done y) l h = tt
react-Orderly has_clock (stopping (some x)) refresh l h = tt
react-Orderly has_clock (stopping (some x)) (clock_ended r) l h = ground (arith, h)
react-Orderly has_clock (stopping (some x)) (painted r) l h = tt
react-Orderly has_clock (stopping (some x)) (cycle_ended r) l h = tt
react-Orderly has_clock waiting (checked none) l h = tt
react-Orderly has_clock waiting (checked (some y)) l h = tt
react-Orderly has_clock waiting (done y) l h = ground (arith, h)
react-Orderly has_clock waiting refresh l h = ground (arith, h)
react-Orderly has_clock waiting (clock_ended r) l h = tt
react-Orderly has_clock waiting (painted r) l h = tt
react-Orderly has_clock waiting (cycle_ended r) l h = tt
react-Orderly has_clock (cycling pending) (checked none) l h = tt
react-Orderly has_clock (cycling pending) (checked (some y)) l h = tt
react-Orderly has_clock (cycling pending) (done y) l h = ground (arith, h)
react-Orderly has_clock (cycling pending) refresh l h = ground (arith, h)
react-Orderly has_clock (cycling pending) (clock_ended r) l h = tt
react-Orderly has_clock (cycling pending) (painted r) l h = tt
react-Orderly has_clock (cycling pending) (cycle_ended r) l h =
    failing has_clock (failure r) l (cycle_ended r) (returned r) (top pending) (ground (arith, h))
      (ground (arith, h))
react-Orderly has_clock (draining x) (checked none) l h = tt
react-Orderly has_clock (draining x) (checked (some y)) l h = tt
react-Orderly has_clock (draining x) (done y) l h = tt
react-Orderly has_clock (draining x) refresh l h = tt
react-Orderly has_clock (draining x) (clock_ended r) l h = tt
react-Orderly has_clock (draining x) (painted r) l h = tt
react-Orderly has_clock (draining x) (cycle_ended r) l h = ground (arith, h)
react-Orderly has_clock (returned o) (checked none) l h = tt
react-Orderly has_clock (returned o) (checked (some y)) l h = tt
react-Orderly has_clock (returned o) (done y) l h = tt
react-Orderly has_clock (returned o) refresh l h = tt
react-Orderly has_clock (returned o) (clock_ended r) l h = tt
react-Orderly has_clock (returned o) (painted r) l h = tt
react-Orderly has_clock (returned o) (cycle_ended r) l h = tt

moved-Orderly :
    (has_clock : Bool) (v w : Worker) (e : Event) (s : Option (Phase × List Entry))
    → After has_clock v.log e s
    → move v e s ≡ some w
    → Orderly has_clock w.phase w.log
moved-Orderly has_clock v w e none h k = ground (arith, k)
moved-Orderly has_clock v w e (some (p, calls)) h k = subst (λ o. OrderlyIn has_clock o) k h

start-Orderly :
    (has_clock has_dashboard : Bool)
    → Orderly has_clock (start has_dashboard).phase (start has_dashboard).log
unfolding start owed clock_on news_on clock_since
start-Orderly has_clock true = ground arith
start-Orderly has_clock false = ground arith

-- Every state that a run comes to is orderly.
pub reach-Orderly :
    (has_clock : Bool) (w : Worker) → Reach has_clock w → Orderly has_clock w.phase w.log
unfolding step
reach-Orderly has_clock _ (started has_dashboard) = start-Orderly has_clock has_dashboard
reach-Orderly has_clock w (stepped {v} e r k) =
    moved-Orderly has_clock v w e (react has_clock v.phase e)
      (react-Orderly has_clock v.phase e v.log (reach-Orderly has_clock v r)) k

-- In every run, a pass of the news starts only on a signal that came after the last pass had
-- started, while neither clock nor pass runs, and after the clock has been called since then, if there
-- is a clock; and the clock is called only while no pass runs.
pub passes-Sound : (has_clock : Bool) (w : Worker) → Reach has_clock w → Sound has_clock w.log
passes-Sound has_clock w r = (reach-Orderly has_clock w r).sound

-- No signal is lost: one that has come since the last pass started is known to the worker wherever it
-- is, unless its context is over or it has returned, and while it waits for a signal, none is owed.
pub signals-Kept : (has_clock : Bool) (w : Worker) → Reach has_clock w → Kept w.phase (owed w.log)
signals-Kept has_clock w r = (reach-Orderly has_clock w r).kept

-- A worker that has returned has neither the clock nor a pass still running.
pub returned-quiet :
    (has_clock : Bool) (w : Worker) (o : Option Error)
    → Reach has_clock w
    → w.phase ≡ returned o
    → (clock_on w.log ≡ false) × (news_on w.log ≡ false)
returned-quiet has_clock w o r e =
    let h = reach-Orderly has_clock w r in (h.clock ∙ ap clock_in e, h.news ∙ ap news_in e)
