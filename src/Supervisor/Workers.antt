-- ===== src/Supervisor/Workers.antt =====
-- supervisor.go: starting and stopping the display, the news worker and the alert worker.
use atlas.Base.{
  List, ℕ, zero, suc, ◌+◌, ◌-◌, ◌*◌, ◌%◌, ◌^◌, min, Bool, true, false, not, ◌||◌, Text, bytes, ◌++◌,
  Option, none, some, [], ◌∷◌, ltb, if◌then◌else◌, pos_part,
}
use atlas.Errors.{Error, message, error_text}
use atlas.Alert.{Alert}
use atlas.Config.{Config, second, minute}
use atlas.Supervisor.State.{
  Effect, LifecycleState, starting, running, pausing, alerting, stopping, failed, display_start,
  start_wait, display_stop, news_started, news_cancelled, stop_timer_set, alert_started,
  alert_cancelled, nil_call, World,
}
use atlas.Supervisor.Monad.{M, pure, ◌>>=◌, ◌>>◌, modify, emit, get}

abbrev pub u64 : ℕ → ℕ
u64 n = n % 2 ^ 64

-- The text of `fmt.Sprintf("start display: %v", err)`.
start_failure : Option Error → Text
unfolding bytes
start_failure none = bytes "start display: <nil>"
start_failure (some e) = bytes "start display: " ++ error_text e

abbrev pub set_lifecycle : LifecycleState → M (Unit {0})
set_lifecycle l = modify (λ s. record s { state = record s.state { lifecycle = l } })

-- The loop of `startDisplay` over the attempts left, from number `i`: what it found and asked for.
-- `none`: the display started; otherwise the last error, which is nil if no attempt was made.
unfoldable pub start_attempts :
    Config → World → ℕ → ℕ → Option Error → Option (Option Error) × List Effect
start_attempts cfg w zero i last = (some last, [])
start_attempts cfg w (suc n) i last =
    let (result, later) = start_attempts cfg w n (i + 1) (w.start_error i) in
    let wait = start_wait (pos_part cfg.startup_retry_delay * 2 ^ i) in
    elim (w.start_error i) [
      | none ↦ (none, display_start i ∷ [])
      | some e ↦
          if w.waited i
          then (result, display_start i ∷ wait ∷ later)
          else (some (some e), display_start i ∷ wait ∷ [])
    ]

-- `startDisplay`
unfoldable pub start_display : Config → World → M (Option Error)
unfolding start_failure
start_display cfg w = do
  set_lifecycle starting
  result ←
      (let (found, asked) = start_attempts cfg w (pos_part cfg.startup_retry_count) 0 none in
        λ s. record { value = found; after = s; effects = asked })
  elim result [
    | none ↦ do
      modify (λ s. record s {
        state = record s.state { display_running = true; last_started_at = w.now };
      })
      pure none
    | some e ↦ do
      modify (λ s. record s {
        state = record s.state { lifecycle = failed; last_error = start_failure e };
      })
      pure (some (message (start_failure e)))
  ]

-- `stopDisplay`
unfoldable pub stop_display : World → M (Option Error)
stop_display w = do
  emit display_stop
  elim w.stop_error [
    | some e ↦ do
      modify (λ s. record s {
        state = record s.state { lifecycle = failed; last_error = error_text e };
      })
      pure (some e)
    | none ↦ do
      modify (λ s. record s {
        state = record s.state { display_running = false; last_stopped_at = w.now };
        force_stop_display = false;
      })
      pure none
  ]

-- `startNews`
unfoldable pub start_news : M (Unit {0})
start_news s = if s.news_running then pure tt s else record {
  value = tt;
  after = record s {
    state = record s.state { news_running = true; lifecycle = running };
    news_cancel = true;
    news_run = u64 (s.news_run + 1);
    news_stopping = false;
  };
  effects = news_started (u64 (s.news_run + 1)) ∷ [];
}

-- `stopNews`: the worker is told to stop once, and a timer watches that it does.
unfoldable pub stop_news : M (Unit {0})
stop_news s = if not s.news_running || s.news_stopping then pure tt s else record {
  value = tt;
  after = record s { state = record s.state { lifecycle = pausing }; news_stopping = true };
  effects =
      (if s.news_cancel then news_cancelled s.news_run else nil_call)
      ∷ stop_timer_set s.news_run
      ∷ [];
}

-- `startAlert`
unfoldable pub start_alert : Alert → M (Unit {0})
start_alert item s = record {
  value = tt;
  after = record s {
    state = record s.state {
      alert_running = true;
      current_alert_operation_id = item.operation_id;
      lifecycle = alerting;
    };
    alert_cancel = true;
    alert_run = u64 (s.alert_run + 1);
  };
  effects = alert_started (u64 (s.alert_run + 1)) item ∷ [];
}

-- `retryDelay`, in nanoseconds
unfoldable pub retry_delay : ℕ → ℕ
retry_delay failures =
    if ltb failures 1 then second else min (second * 2 ^ min (failures - 1) 6) minute

-- `cancelAll`
unfoldable pub cancel_all : Bool → M (Unit {0})
cancel_all scheduled = do
  s ← get
  if s.news_cancel then stop_news else pure tt
  if s.alert_cancel then emit (alert_cancelled s.alert_run) else pure tt
  modify (λ t. record t {
    state = record t.state { queued_alerts = 0 };
    alerts = [];
    temporary_alert_display = false;
  })
  if scheduled then set_lifecycle stopping else pure tt
