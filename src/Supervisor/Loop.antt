-- ===== src/Supervisor/Loop.antt =====
-- supervisor.go: the handler of each command, `reconcile`, and one turn of `loop`.
use atlas.Base.{
  ℕ, ◌+◌, ◌-◌, Bool, true, false, not, ◌&&◌, ◌||◌, ◌==◌, ltb, leb_ℤ, pos, Option, none, some, List,
  [], ◌∷◌, ◌++◌, length, is_empty, if◌then◌else◌,
}
use atlas.Errors.{
  Error, sentinel, errors_is, error_text, canceled, shutting_down as err_shutting_down, queue_full,
  outside_active_window, worker_stop_timeout,
}
use atlas.Alert.{Alert}
use atlas.Config.{Config}
use atlas.Supervisor.State.{
  off, pausing, alerting, failed, InternalState, CommandKind, start, shutdown, add_alert,
  news_changed, news_pass, snapshot, stop, news_stopped, alert_finished, news_stop_timed_out,
  news_retry, Command, AlertState, queued, displaying, Response, failure, accepted, state_of, empty,
  retry_timer_set, refresh_sent, replied, app_cancelled, stop_result, World,
}
use atlas.Supervisor.Monad.{M, pure, ◌>>=◌, ◌>>◌, modify, emit, get}
use atlas.Supervisor.Workers.{
  start_display, stop_display, start_news, stop_news, start_alert, retry_delay, cancel_all,
  set_lifecycle,
}

-- A handler goes on to `reconcile`, or takes the next command at once (`continue`).
pub data Flow : Type 0 where
  continued proceeding : Flow

-- `reply`: only a command with a reply channel is answered.
unfoldable pub reply : Bool → Response → M (Unit {0})
reply wants r = if wants then emit (replied r) else pure tt

-- cmdNewsChanged, cmdNewsPass
unfoldable pub on_refresh : World → M Flow
on_refresh w s =
    if s.news_running && not s.news_stopping && w.refresh_free
    then record {
      value = proceeding;
      after = record s { state = record s.state { last_refresh_at = w.now } };
      effects = refresh_sent ∷ [];
    }
    else pure proceeding s

-- The alerts that count against the capacity: the head of the queue is not one of them while its
-- turn on the display is being prepared.
abbrev pub waiting : InternalState → ℕ
waiting s =
    if not s.alert_running && ltb 0 (length s.alerts) then length s.alerts - 1 else length s.alerts

unfoldable pub enqueue : Alert → InternalState → InternalState
enqueue a s =
    let grown = s.alerts ++ a ∷ [] in
    record s {
      state = record s.state {
        queued_alerts =
            if not s.alert_running && ltb 0 (length grown) then length grown - 1 else length grown;
      };
      alerts = grown;
      temporary_alert_display = if s.desired_on then s.temporary_alert_display else true;
    }

abbrev alert_state : InternalState → AlertState
alert_state s = if not s.alert_running && is_empty s.alerts then displaying else queued

-- cmdAlert
unfoldable pub on_alert : Config → Bool → Alert → M Flow
on_alert cfg wants a = do
  s ← get
  if s.shutting_down
      then (do reply wants (failure (sentinel err_shutting_down)); pure continued)
      else if not s.desired_on && not cfg.allow_alerts_outside_active_window
      then (do reply wants (failure (sentinel outside_active_window)); pure continued)
      else if leb_ℤ cfg.alert_queue_capacity (pos (waiting s))
      then (do reply wants (failure (sentinel queue_full)); pure continued)
      else do
        modify (enqueue a)
        if s.news_running && not s.news_stopping then stop_news else pure tt
        reply wants (accepted a.operation_id (alert_state s))
        pure proceeding

-- A worker's error counts unless it is the cancellation that the loop asked for.
abbrev pub is_failure : Option Error → Bool
is_failure none = false
is_failure (some e) = not (errors_is e canceled)

abbrev failure_text : InternalState → Option Error → InternalState
failure_text s none = s
failure_text s (some e) = record s { state = record s.state { last_error = error_text e } }

abbrev news_ended : InternalState → InternalState
news_ended s = record s {
  state = record s.state { news_running = false };
  news_stopping = false;
  news_cancel = false;
}

-- cmdNewsStopped
unfoldable pub on_news_stopped : ℕ → Option Error → M Flow
on_news_stopped run e s =
    if not (run == s.news_run)
    then pure continued s
    else if is_failure e
    then if s.desired_on && not s.shutting_down
      then record {
        value = continued;
        after =
            let t = failure_text (news_ended s) e in
            record t {
              state = record t.state { lifecycle = failed };
              news_failures = s.news_failures + 1;
            };
        effects = retry_timer_set s.news_run (retry_delay (s.news_failures + 1)) ∷ [];
      }
      else pure proceeding (record (failure_text (news_ended s) e) { news_failures = 0 })
    else pure proceeding (record (news_ended s) { news_failures = 0 })

-- cmdNewsStopTimedOut
unfoldable pub on_news_stop_timed_out : ℕ → M Flow
on_news_stop_timed_out run s =
    if run == s.news_run && s.news_running
    then pure proceeding (record s {
      state = record s.state {
        lifecycle = failed;
        last_error = error_text (sentinel worker_stop_timeout);
      };
    })
    else pure proceeding s

-- cmdNewsRetry
unfoldable pub on_news_retry : ℕ → M Flow
on_news_retry run s =
    if not (run == s.news_run)
      || not s.desired_on
      || s.shutting_down
      || s.alert_running
      || not (is_empty s.alerts)
    then pure continued s
    else pure proceeding s

-- cmdAlertFinished
unfoldable pub on_alert_finished : ℕ → Option Error → M Flow
on_alert_finished run e s =
    if not (run == s.alert_run)
    then pure continued s
    else let t = record s {
      state = record s.state { alert_running = false; current_alert_operation_id = [] };
      alert_cancel = false;
    } in
      pure proceeding (if is_failure e then failure_text t e else t)

-- cmdStart, and cmdShutdown, cmdReconcile and cmdStop up to their reply
abbrev set_desired : Bool → M (Unit {0})
set_desired d = modify (λ s. record s { state = record s.state { desired_on = d } })

unfoldable pub on_shutdown : M Flow
on_shutdown = do
  set_desired false
  modify (λ s. record s { force_stop_display = s.display_running })
  cancel_all true
  pure proceeding

unfoldable pub on_reconcile : Bool → M Flow
on_reconcile true = do set_desired true; pure proceeding
on_reconcile false = do
  set_desired false
  modify (λ s. record s { force_stop_display = true })
  cancel_all true
  pure proceeding

unfoldable pub on_stop : Bool → M Flow
on_stop wants = do
  modify (λ s. record s {
    state = record s.state { desired_on = false };
    shutting_down = true;
    force_stop_display = true;
  })
  cancel_all false
  reply wants empty
  emit app_cancelled
  pure proceeding

-- The `switch` of `loop`.
unfoldable pub handle : Config → World → Bool → CommandKind → M Flow
handle cfg w wants start = do set_desired true; pure proceeding
handle cfg w wants shutdown = on_shutdown
handle cfg w wants (add_alert a) = on_alert cfg wants a
handle cfg w wants news_changed = on_refresh w
handle cfg w wants news_pass = on_refresh w
handle cfg w wants (CommandKind.reconcile d) = on_reconcile d
handle cfg w wants snapshot = do s ← get; reply wants (state_of s.state none); pure continued
handle cfg w wants stop = on_stop wants
handle cfg w wants (news_stopped run e) = on_news_stopped run e
handle cfg w wants (alert_finished run e) = on_alert_finished run e
handle cfg w wants (news_stop_timed_out run) = on_news_stop_timed_out run
handle cfg w wants (news_retry run) = on_news_retry run

-- What is shown now: an alert that runs, else the head of the queue, else the news.
unfoldable pub settle_display : World → M (Option Error)
settle_display w = do
  s ← get
  if s.alert_running then (do set_lifecycle alerting; pure none) else elim s.alerts [
    | item ∷ rest ↦
        if s.news_running
        then (do
          if not s.news_stopping then stop_news else pure tt
          set_lifecycle pausing
          pure none)
        else (do
          modify (λ t. record t {
            state = record t.state { queued_alerts = length rest };
            alerts = rest;
          })
          start_alert item
          pure none)
    | [] ↦
        if s.temporary_alert_display
        then (do
          modify (λ t. record t { temporary_alert_display = false })
          stopped ← stop_display w
          elim stopped [ some e ↦ pure (some e) | none ↦ do set_lifecycle off; pure none ])
        else if s.desired_on && not s.news_running
        then (do start_news; pure none)
        else pure none
  ]

-- The display is not wanted: everything is cancelled, and the display stops once the workers have.
unfoldable pub settle_off : World → M (Option Error)
settle_off w = do
  cancel_all true
  s ← get
  if s.news_running || s.alert_running
      then pure none
      else if s.display_running || s.force_stop_display
      then (do
        stopped ← stop_display w
        elim stopped [ some e ↦ pure (some e) | none ↦ do set_lifecycle off; pure none ])
      else (do set_lifecycle off; pure none)

abbrev pub wants_display : InternalState → Bool
wants_display s =
    s.desired_on || s.temporary_alert_display && (s.alert_running || not (is_empty s.alerts))

-- `reconcile`
unfoldable pub reconcile : Config → World → M (Option Error)
reconcile cfg w = do
  s ← get
  if s.shutting_down
      then pure none
      else if not (wants_display s)
      then settle_off w
      else if s.display_running
      then settle_display w
      else (do
        started ← start_display cfg w
        elim started [ some e ↦ pure (some e) | none ↦ settle_display w ])

-- The replies that follow `reconcile`.
unfoldable pub reply_after : Bool → CommandKind → Option Error → M (Unit {0})
reply_after wants start e = do s ← get; reply wants (state_of s.state e)
reply_after wants shutdown e = do s ← get; reply wants (state_of s.state e)
reply_after wants (CommandKind.reconcile d) e = do s ← get; reply wants (state_of s.state e)
reply_after wants news_changed e = do s ← get; reply wants (state_of s.state e)
reply_after wants _ e = pure tt

-- The end of a turn: whether the loop returns.
unfoldable pub finish : World → M Bool
finish w = do
  s ← get
  if s.shutting_down && not s.news_running && not s.alert_running
      then (do e ← stop_display w; emit (stop_result e); pure true)
      else pure false

-- One turn of `loop`; the value says whether the loop has returned.
unfoldable pub turn : Config → World → Command → M Bool
turn cfg w c = elim c.ctx_err [
  | some e ↦ do reply c.wants_reply (failure e); pure false
  | none ↦ do
    flow ← handle cfg w c.wants_reply c.kind
    elim flow [
      | continued ↦ pure false
      | proceeding ↦ do e ← reconcile cfg w; reply_after c.wants_reply c.kind e; finish w
    ]
]

-- The loop over the commands that it takes, until it returns.
unfoldable pub loop : Config → List (World × Command) → M Bool
loop cfg [] = pure false
loop cfg ((w, c) ∷ rest) =
    let later = loop cfg rest in do returned ← turn cfg w c; if returned then pure true else later
