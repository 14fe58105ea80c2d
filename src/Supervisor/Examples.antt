-- ===== src/Supervisor/Examples.antt =====
-- Runs of the supervisor's loop at concrete inputs, and each theorem at one.
use atlas.Base.{
  ◌⊎◌, ◌≡◌, ◌≢◌, ◌&&◌, not, refl, true, false, none, some, List, [], ◌∷◌, pos, arith, bytes,
  if◌then◌else◌, ltb,
}
use mathlib.Core.List.{Sublist}
use atlas.Errors.{message as failed_with, errors_is}
use atlas.Alert.{Alert, warning}
use atlas.Config.{Config, default}
use atlas.Supervisor.State.{
  running, alerting, off, pausing, stopping, failed, InternalState, initial, CommandKind, start,
  add_alert, snapshot, news_stopped, alert_finished, news_retry, Command, World,
}
use atlas.Supervisor.Workers.{
  start_attempts, start_display, stop_display, start_news, stop_news, start_alert, cancel_all,
}
use atlas.Supervisor.Loop.{
  reply, enqueue, on_refresh, on_alert, on_news_stopped, on_news_stop_timed_out, on_news_retry,
  on_alert_finished, on_shutdown, on_reconcile, on_stop, handle, settle_display, settle_off,
  reconcile, reply_after, finish, turn, loop,
}
use atlas.Supervisor.Effects.{replies, nil_calls, started}
use atlas.Supervisor.Invariant.{Inv, turn-Inv, loop-initial-Inv}
use atlas.Supervisor.Replies.{turn-replies_once}
use atlas.Supervisor.Safety.{turn-nil_calls_none}
use atlas.Supervisor.Order.{admitted_in, loop-initial-order}
use atlas.Supervisor.Shutdown.{message, stop_command, turn-returns, stop-ends}
use atlas.Supervisor.Winding.{worker_starts, turn-Winds}
use atlas.Supervisor.Settling.{
  Settled, reconcile-Settled, reconcile-settles_off, alert_finished-turns_off,
  news_stopped-strands_alert,
}
use atlas.Supervisor.Startup.{starts, start_display-gives_up}

program : Unit {0}
unfolding bytes default errors_is initial start_attempts start_display stop_display start_news
    stop_news start_alert cancel_all reply enqueue on_refresh on_alert on_news_stopped
    on_news_stop_timed_out on_news_retry on_alert_finished on_shutdown on_reconcile on_stop handle
    settle_display settle_off reconcile reply_after finish turn loop
program = tt

-- The defaults, with alerts that may light the display at any time.
abbrev config : Config
config = record default { allow_alerts_outside_active_window = true }

-- Everything that is asked of the display works.
abbrev calm : World
calm = record {
  now = some 1;
  start_error = λ i. none;
  waited = λ i. true;
  stop_error = none;
  refresh_free = true;
}

-- The first attempt to start the display fails.
abbrev shaky : World
shaky = record calm { start_error = λ i. if ltb i 1 then some (failed_with []) else none }

-- No attempt to start the display succeeds.
abbrev broken : World
broken = record calm { start_error = λ i. some (failed_with []) }

abbrev fire : Alert
fire = record {
  operation_id = 1 ∷ [];
  color = [];
  message = 70 ∷ [];
  severity = warning;
  received_at = some 1;
}

abbrev rain : Alert
rain = record fire { operation_id = 2 ∷ [] }

abbrev ask : CommandKind → Command
ask k = record { kind = k; wants_reply = true; ctx_err = none }

-- The news run on a lit display.
abbrev reading : InternalState
reading = record {
  state = record {
    lifecycle = running;
    desired_on = true;
    display_running = true;
    news_running = true;
    alert_running = false;
    queued_alerts = 0;
    current_alert_operation_id = [];
    last_started_at = some 1;
    last_stopped_at = none;
    last_refresh_at = none;
    last_error = [];
  };
  news_cancel = true;
  alert_cancel = false;
  alerts = [];
  news_run = 1;
  alert_run = 0;
  news_failures = 0;
  shutting_down = false;
  temporary_alert_display = false;
  news_stopping = false;
  force_stop_display = false;
}

-- An alert waits for the news to stop.
abbrev pausing_news : InternalState
pausing_news = record reading {
  state = record reading.state { lifecycle = pausing };
  alerts = fire ∷ [];
  news_stopping = true;
}

-- An alert is shown on a display that was lit for it, and the window has opened since.
abbrev lit_by_alert : InternalState
lit_by_alert = record reading {
  state = record reading.state {
    lifecycle = alerting;
    news_running = false;
    alert_running = true;
    current_alert_operation_id = 1 ∷ [];
  };
  news_cancel = false;
  alert_cancel = true;
  news_run = 0;
  alert_run = 1;
  temporary_alert_display = true;
}

-- The same defect from the start of the process: an alert at night, the window opens, the alert ends.
night : List (World × Command)
night =
    (calm, ask (add_alert fire))
    ∷ (calm, message start)
    ∷ (calm, message (alert_finished 1 none))
    ∷ []

night_ends_dark :
    let t = (loop config night initial).after in
    (t.desired_on ≡ true) × (t.display_running ≡ false) × (t.lifecycle ≡ off)
unfolding program night
night_ends_dark = (refl, refl, refl)

-- A morning: the window opens, two alerts come, the news stop, and the alerts are shown in turn.
abbrev morning : List (World × Command)
morning =
    (calm, message start)
    ∷ (calm, ask (add_alert fire))
    ∷ (calm, ask (add_alert rain))
    ∷ (calm, message (news_stopped 1 none))
    ∷ (calm, message (alert_finished 1 none))
    ∷ (calm, message (alert_finished 2 none))
    ∷ []

morning_shows :
    (started (loop config morning initial).effects ≡ fire ∷ rain ∷ [])
    × ((loop config morning initial).after.lifecycle ≡ running)
unfolding program
morning_shows = (refl, refl)

reading-Inv : Inv (pos 100) reading
reading-Inv = ground arith

lit_by_alert-Inv : Inv (pos 100) lit_by_alert
lit_by_alert-Inv = ground arith

turn-Inv_example : Inv (pos 100) (turn config calm (ask (add_alert fire)) reading).after
unfolding program
turn-Inv_example = turn-Inv config calm (ask (add_alert fire)) reading reading-Inv

loop-initial-Inv_example : Inv (pos 100) (loop config morning initial).after
unfolding default
loop-initial-Inv_example = loop-initial-Inv config morning

turn-replies_once_example : replies (turn config calm (ask snapshot) reading).effects ≡ 1
turn-replies_once_example = turn-replies_once config calm (ask snapshot) reading

turn-nil_calls_none_example :
    nil_calls (turn config calm (ask (add_alert fire)) reading).effects ≡ 0
unfolding default
turn-nil_calls_none_example =
    turn-nil_calls_none config calm (ask (add_alert fire)) reading reading-Inv

loop-initial-order_example :
    Sublist (started (loop config morning initial).effects) (admitted_in config morning initial)
loop-initial-order_example = loop-initial-order config morning

abbrev ending : InternalState
ending = record reading { shutting_down = true; news_stopping = true }

turn-Winds_example :
    let o = turn config calm (message start) ending in
    (worker_starts o.effects ≡ 0)
    × (o.after.shutting_down ≡ true)
    × ((o.after.news_running && not ending.news_running) ≡ false)
    × ((o.after.alert_running && not ending.alert_running) ≡ false)
turn-Winds_example = turn-Winds config calm (message start) ending refl

turn-returns_example :
    let t = (turn config calm (message (news_stopped 1 none)) ending).after in
    (t.shutting_down ≡ true) × (t.news_running ≡ false) × (t.alert_running ≡ false)
unfolding program
turn-returns_example = turn-returns config calm (message (news_stopped 1 none)) ending refl

stop-ends_example :
    (loop config
      ((calm, stop_command true) ∷ (calm, message (news_stopped 1 none)) ∷ [])
      reading).value
    ≡ true
unfolding default
stop-ends_example = stop-ends config calm calm true none reading reading-Inv

reconcile-Settled_example : Settled pausing_news (reconcile config calm pausing_news).after
unfolding program
reconcile-Settled_example = reconcile-Settled config calm pausing_news refl refl refl refl

abbrev closing : InternalState
closing = record reading { state = record reading.state { desired_on = false } }

reconcile-settles_off_example :
    let t = (reconcile config calm closing).after in
    (t.alerts ≡ [])
    × ((true ≡ false) × (t.lifecycle ≡ off) × (t.display_running ≡ false)
        ⊎ (true ≡ true)
          × (t.lifecycle ≡ stopping)
          × (t.news_running ≡ true)
          × (t.alert_running ≡ false))
unfolding program
reconcile-settles_off_example = reconcile-settles_off config calm closing refl refl refl

alert_finished-turns_off_example :
    let t = (turn config calm (message (alert_finished 1 none)) lit_by_alert).after in
    (t.desired_on ≡ true)
    × (t.display_running ≡ false)
    × (t.lifecycle ≡ off)
    × (t.news_running ≡ false)
unfolding default
alert_finished-turns_off_example =
    alert_finished-turns_off config calm none lit_by_alert lit_by_alert-Inv refl refl refl refl refl
      refl

news_stopped-strands_alert_example :
    let o =
      loop config
        ((calm, message (news_stopped 1 (some (failed_with []))))
          ∷ (calm, message (news_retry 1))
          ∷ [])
        pausing_news in
    (o.after.alerts ≡ fire ∷ [])
    × (o.after.alert_running ≡ false)
    × (o.after.news_running ≡ false)
    × (started o.effects ≡ [])
unfolding errors_is
news_stopped-strands_alert_example =
    news_stopped-strands_alert config calm calm (failed_with []) pausing_news refl refl refl refl
      refl

start_display-gives_up_example :
    let o = start_display config broken initial in
    (o.value ≢ none) × (o.after.lifecycle ≡ failed) × (starts o.effects ≡ 3)
unfolding default
start_display-gives_up_example =
    start_display-gives_up config broken initial
      ((λ e. cc), refl, ((λ e. cc), refl, ((λ e. cc), refl, tt)))
