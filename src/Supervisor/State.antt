-- ===== src/Supervisor/State.antt =====
-- The data of internal/supervisor/supervisor.go: the state of the loop, its commands, and what a
-- command makes it do.
use atlas.Base.{ℕ, Bool, false, Text, Option, none, List, []}
use atlas.Errors.{Error}
use atlas.Alert.{Alert, Time}

pub data LifecycleState : Type 0 where
  off starting running pausing alerting stopping failed : LifecycleState

pub record State : Type 0 where
  pub lifecycle : LifecycleState
  pub desired_on : Bool
  pub display_running : Bool
  pub news_running : Bool
  pub alert_running : Bool
  pub queued_alerts : ℕ
  pub current_alert_operation_id : Text
  pub last_started_at : Time
  pub last_stopped_at : Time
  pub last_refresh_at : Time
  pub last_error : Text

-- A cancel function is nil or not: `news_cancel` and `alert_cancel` say that it is not.
pub record InternalState : Type 0 where
  pub state : State
  pub open state use *
  pub news_cancel : Bool
  pub alert_cancel : Bool
  pub alerts : List Alert
  pub news_run : ℕ  -- uint64
  pub alert_run : ℕ  -- uint64
  pub news_failures : ℕ
  pub shutting_down : Bool
  pub temporary_alert_display : Bool
  pub news_stopping : Bool
  pub force_stop_display : Bool

-- The state that the loop starts from.
unfoldable pub initial : InternalState
initial = record {
  state = record {
    lifecycle = off;
    desired_on = false;
    display_running = false;
    news_running = false;
    alert_running = false;
    queued_alerts = 0;
    current_alert_operation_id = [];
    last_started_at = none;
    last_stopped_at = none;
    last_refresh_at = none;
    last_error = [];
  };
  news_cancel = false;
  alert_cancel = false;
  alerts = [];
  news_run = 0;
  alert_run = 0;
  news_failures = 0;
  shutting_down = false;
  temporary_alert_display = false;
  news_stopping = false;
  force_stop_display = false;
}

-- The kinds of command, each with the payload that its handler reads.
pub data CommandKind : Type 0 where
  start shutdown : CommandKind
  add_alert : Alert → CommandKind
  news_changed news_pass : CommandKind
  reconcile : (desired : Bool) → CommandKind
  snapshot stop : CommandKind
  news_stopped alert_finished : (run : ℕ) → Option Error → CommandKind
  news_stop_timed_out news_retry : (run : ℕ) → CommandKind

-- `wants_reply`: the reply channel is not nil. `ctx_err`: what the request's context says when the
-- loop takes the command, for a command that has one.
pub record Command : Type 0 where
  pub kind : CommandKind
  pub wants_reply : Bool
  pub ctx_err : Option Error

pub data AlertState : Type 0 where
  queued displaying : AlertState

pub data Response : Type 0 where
  failure : Error → Response
  accepted : (operation_id : Text) → AlertState → Response
  state_of : State → Option Error → Response
  empty : Response

-- What a command makes the loop do, in order. `nil_call` is the panic of a call of a nil function.
pub data Effect : Type 0 where
  display_start : (attempt : ℕ) → Effect
  start_wait : (delay : ℕ) → Effect
  display_stop : Effect
  news_started news_cancelled stop_timer_set : (run : ℕ) → Effect
  retry_timer_set : (run delay : ℕ) → Effect
  alert_started : (run : ℕ) → Alert → Effect
  alert_cancelled : (run : ℕ) → Effect
  refresh_sent : Effect
  replied : Response → Effect
  app_cancelled : Effect
  stop_result : Option Error → Effect
  nil_call : Effect

-- What the world outside the loop answers while it handles one command: the clock, the display's
-- answer to each attempt to start and to a stop, whether each wait before the next attempt ran its
-- full time, and whether the one-place refresh channel is free.
pub record World : Type 0 where
  pub now : Time
  pub start_error : ℕ → Option Error
  pub waited : ℕ → Bool
  pub stop_error : Option Error
  pub refresh_free : Bool
