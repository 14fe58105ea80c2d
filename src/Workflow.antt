-- ===== src/Workflow.antt =====
-- internal/newsworkflow/worker.go: the worker that shows the clock and, on a signal, a pass of the
-- news. `Run` and its helpers are a state machine: a phase for each place where the code waits or
-- asks the context, and an event for each way in which it goes on.

mod Passes
mod Examples
use atlas.Base.{
  ◌≡◌, not, Bool, true, false, List, [], ◌∷◌, ◌++◌, Text, bytes, Option, none, some, if◌then◌else◌,
}
use atlas.Errors.{Error, message, errors_is, canceled}

-- What the worker starts: `ShowNewsCycle` of the dashboard, `RunClock` and `ShowClock` of the clock.
pub data Call : Type 0 where
  show_news_cycle run_clock show_clock : Call

pub data Event : Type 0 where
  checked : Option Error → Event  -- ctx.Err() is asked
  done : Error → Event  -- <-ctx.Done(), with the context's error
  refresh : Event  -- <-refreshNow
  clock_ended : Option Error → Event  -- RunClock has returned
  painted : Option Error → Event  -- ShowClock has returned
  cycle_ended : Option Error → Event  -- ShowNewsCycle has returned

pub data Phase : Type 0 where
  top : (pending : Bool) → Phase  -- the head of the loop
  painting : Phase  -- paintClockOnce, in ShowClock
  repainted : Phase  -- paintClockOnce, at its last line
  live : Phase  -- runClockUntil, in its select
  -- runClockUntil, after it has cancelled the clock: for a signal, or since the context is over
  stopping : Option Error → Phase
  waiting : Phase  -- waitForRefresh
  cycling : (pending : Bool) → Phase  -- the select around a pass
  draining : Error → Phase  -- after a pass has been cancelled
  returned : Option Error → Phase

-- What has happened, the newest first.
pub data Entry : Type 0 where
  event : Event → Entry
  call : Call → Entry

pub record Worker : Type 0 where
  pub phase : Phase
  pub log : List Entry

-- `err != nil && !errors.Is(err, context.Canceled)`
unfoldable pub failure : Option Error → Bool
unfolding errors_is
failure none = false
failure (some e) = not (errors_is e canceled)

-- The first phase of `Run`; the dashboard may be nil.
unfoldable pub start : (has_dashboard : Bool) → Worker
unfolding bytes
start has_dashboard = record {
  phase =
      if has_dashboard
      then top false
      else returned (some (message (bytes "news workflow: dashboard is required")));
  log = [];
}

abbrev calling : Call → Phase → Phase × List Entry
calling c p = (p, call c ∷ [])

abbrev silent : Phase → Phase × List Entry
silent p = (p, [])

abbrev new_pass : Phase × List Entry
new_pass = calling show_news_cycle (cycling false)

-- The step that an event takes, if the worker can meet it in that phase. The clock may be nil.
unfoldable pub react : (has_clock : Bool) → Phase → Event → Option (Phase × List Entry)
unfolding failure
react has_clock (top pending) (checked (some e)) = some (silent (returned (some e)))
react has_clock (top true) (checked none) =
    some (if has_clock then calling show_clock painting else new_pass)
react has_clock (top false) (checked none) =
    some (if has_clock then calling run_clock live else silent waiting)
react has_clock painting (painted o) =
    some (if failure o then silent (returned o) else silent repainted)
react has_clock repainted (checked none) = some new_pass
react has_clock repainted (checked (some e)) = some (silent (returned (some e)))
react has_clock live (done e) = some (silent (stopping (some e)))
react has_clock live refresh = some (silent (stopping none))
react has_clock live (clock_ended o) =
    some (if failure o then silent (returned o) else silent waiting)
react has_clock (stopping none) (clock_ended o) = some new_pass
react has_clock (stopping (some e)) (clock_ended o) = some (silent (returned (some e)))
react has_clock waiting (done e) = some (silent (returned (some e)))
react has_clock waiting refresh = some new_pass
react has_clock (cycling pending) (done e) = some (silent (draining e))
react has_clock (cycling pending) refresh = some (silent (cycling true))
react has_clock (cycling pending) (cycle_ended o) =
    some (if failure o then silent (returned o) else silent (top pending))
react has_clock (draining e) (cycle_ended o) = some (silent (returned (some e)))
react has_clock p e = none

abbrev logged : List Entry → Event → Phase × List Entry → Worker
logged log e (p, calls) = record { phase = p; log = calls ++ event e ∷ log }

abbrev move : Worker → Event → Option (Phase × List Entry) → Option Worker
move w e none = none
move w e (some s) = some (logged w.log e s)

unfoldable pub step : (has_clock : Bool) → Worker → Event → Option Worker
unfolding react
step has_clock w e = move w e (react has_clock w.phase e)

-- The states that `Run` can come to.
pub data Reach (has_clock : Bool) : Worker → Type 0 where
  started : (has_dashboard : Bool) → Reach has_clock (start has_dashboard)
  stepped :
      {v w : Worker} (e : Event)
      → Reach has_clock v
      → step has_clock v e ≡ some w
      → Reach has_clock w
