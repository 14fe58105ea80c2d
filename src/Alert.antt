-- ===== src/Alert.antt =====
-- internal/alert/model.go and internal/alert/worker.go: an alert, and the worker that shows one.
use atlas.Base.{ℕ, Bool, true, false, Text, Option, none, some, List, [], ◌∷◌}
use atlas.Errors.{Error}

pub data Severity : Type 0 where
  info warning critical : Severity

-- A `time.Time`: the zero time, or nanoseconds since the Unix epoch.
abbrev pub Time : Type 0
Time = Option ℕ

pub record Alert : Type 0 where
  pub operation_id : Text
  pub color : Text
  pub message : Text
  pub severity : Severity
  pub received_at : Time

-- What the worker asks of the presenter. A clear is detached if its context is a fresh one, with
-- its own timeout, that the cancelled context does not end.
pub data PresenterCall : Type 0 where
  show : Alert → PresenterCall
  clear : (detached : Bool) → PresenterCall

-- How the wait for the duration ends: the context is done, with its error, or the timer fires.
pub data WaitEnd : Type 0 where
  done : Error → WaitEnd
  elapsed : WaitEnd

-- `Run`: the calls in order, and the error returned. `shown` and `cleared` are the presenter's
-- answers to the two calls.
unfoldable pub run :
    Alert → Option Error → WaitEnd → Option Error → List PresenterCall × Option Error
run item (some e) ended cleared = (show item ∷ [], some e)
run item none (done e) cleared = (show item ∷ clear true ∷ [], some e)
run item none elapsed cleared = (show item ∷ clear false ∷ [], cleared)
