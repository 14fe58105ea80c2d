-- ===== src/Supervisor/Settling.antt =====
-- What the display shows once `reconcile` has run, and two orders of commands in which it does not
-- show what it should.
use atlas.Base.{
  ◌≡◌, true, false, ◌||◌, ◌&&◌, not, Option, none, some, [], ◌∷◌, arith, is_empty, ◌⊎◌, map,
}
use atlas.Errors.{Error}
use atlas.Alert.{Alert}
use atlas.Config.{Config}
use atlas.Supervisor.State.{InternalState, news_stopped, alert_finished, news_retry, World}
use atlas.Supervisor.Workers.{
  start_display, stop_display, start_news, stop_news, start_alert, cancel_all,
}
use atlas.Supervisor.Loop.{
  on_news_stopped, on_news_retry, on_alert_finished, handle, settle_display, settle_off, reconcile,
  reply_after, finish, turn, loop, wants_display,
}
use atlas.Supervisor.State.{off, alerting, pausing, stopping}
use atlas.Supervisor.Loop.{is_failure}
use atlas.Supervisor.Effects.{started}
use atlas.Supervisor.Invariant.{Inv, start_display-lit}
use atlas.Supervisor.Shutdown.{message, cancel_all-flags}

-- What starting the display leaves alone.
start_display-keeps :
    (cfg : Config) (w : World) (s : InternalState)
    → let t = (start_display cfg w s).after in
      (t.alerts ≡ s.alerts)
      × (t.news_running ≡ s.news_running)
      × (t.alert_running ≡ s.alert_running)
      × (t.desired_on ≡ s.desired_on)
      × (t.temporary_alert_display ≡ s.temporary_alert_display)
unfolding start_display
start_display-keeps cfg w s = ground arith

-- What `reconcile` owes, by what it found: the running alert stays; else the first alert starts,
-- or waits for the news worker to stop; else, where the display is to be on, the news run.
abbrev pub AlertStays : InternalState → InternalState → Type 0
AlertStays s t = (s.alert_running ≡ true) × (t.alert_running ≡ true) × (t.lifecycle ≡ alerting)

abbrev pub AlertStarts : InternalState → InternalState → Type 0
AlertStarts s t =
    (s.alert_running ≡ false)
    × (s.news_running ≡ false)
    × (t.alert_running ≡ true)
    × (map (λ (a : Alert). a.operation_id) s.alerts
        ≡ t.current_alert_operation_id ∷ map (λ (a : Alert). a.operation_id) t.alerts)
    × (t.lifecycle ≡ alerting)

abbrev pub AlertWaits : InternalState → InternalState → Type 0
AlertWaits s t =
    (s.alert_running ≡ false)
    × (s.news_running ≡ true)
    × (is_empty s.alerts ≡ false)
    × (t.news_running ≡ true)
    × (t.news_stopping ≡ true)
    × (t.alerts ≡ s.alerts)
    × (t.lifecycle ≡ pausing)

abbrev pub NewsRuns : InternalState → InternalState → Type 0
NewsRuns s t =
    (s.alert_running ≡ false) × (s.alerts ≡ []) × (t.alerts ≡ []) × (t.news_running ≡ true)

abbrev pub Settled : InternalState → InternalState → Type 0
Settled s t =
    (t.display_running ≡ true) × (AlertStays s t ⊎ AlertStarts s t ⊎ AlertWaits s t ⊎ NewsRuns s t)

settle_display-Settled :
    (w : World) (s t : InternalState)
    → (s.alerts ≡ t.alerts)
      × (s.news_running ≡ t.news_running)
      × (s.alert_running ≡ t.alert_running)
    → t.display_running ≡ true
    → (t.temporary_alert_display && not t.alert_running && is_empty t.alerts) ≡ false
    → wants_display t ≡ true
    → Settled s (settle_display w t).after
unfolding settle_display start_alert start_news stop_news
settle_display-Settled w s t same lit temp want = ground arith

-- After a `reconcile` that reports no error, where the display is wanted and the loop is not
-- shutting down, the display is on and shows what it should. The last premise leaves out the end
-- of an alert that lit the display outside the active window.
pub reconcile-Settled :
    (cfg : Config) (w : World) (s : InternalState)
    → s.shutting_down ≡ false
    → wants_display s ≡ true
    → (reconcile cfg w s).value ≡ none
    → (s.temporary_alert_display && not s.alert_running && is_empty s.alerts) ≡ false
    → Settled s (reconcile cfg w s).after
unfolding reconcile
reconcile-Settled cfg w s d want fine temp = ground (
  arith,
  start_display-keeps cfg w s,
  start_display-lit cfg w s,
  settle_display-Settled w s s,
  settle_display-Settled w s (start_display cfg w s).after,
)

stop_display-darkens :
    (w : World) (s : InternalState)
    → let o = stop_display w s in
      (o.value ≡ none → o.after.display_running ≡ false) × (o.after.alerts ≡ s.alerts)
unfolding stop_display
stop_display-darkens w s = ground arith

cancel_all-clears :
    (s : InternalState)
    → let t = (cancel_all true s).after in
      (t.alerts ≡ []) × (t.lifecycle ≡ stopping) × (t.display_running ≡ s.display_running)
unfolding cancel_all stop_news
cancel_all-clears s = ground arith

-- After a `reconcile` that reports no error, where the display is not wanted and the loop is not
-- shutting down, the queue is empty; if no worker runs the display is off, and otherwise the loop
-- is stopping and lets the workers run to their end.
pub reconcile-settles_off :
    (cfg : Config) (w : World) (s : InternalState)
    → s.shutting_down ≡ false
    → wants_display s ≡ false
    → (reconcile cfg w s).value ≡ none
    → let t = (reconcile cfg w s).after in
      (t.alerts ≡ [])
      × (((s.news_running || s.alert_running) ≡ false)
            × (t.lifecycle ≡ off)
            × (t.display_running ≡ false)
          ⊎ ((s.news_running || s.alert_running) ≡ true)
            × (t.lifecycle ≡ stopping)
            × (t.news_running ≡ s.news_running)
            × (t.alert_running ≡ s.alert_running))
unfolding reconcile settle_off
reconcile-settles_off cfg w s d want fine =
    let c = cancel_all true s in
    ground (arith, cancel_all-flags true s, cancel_all-clears s, stop_display-darkens w c.after)

-- A defect: an alert lit the display outside the active window, and the window opened while it was
-- shown. When the alert ends, with no other waiting, the display is stopped and the state is off,
-- although the display is to be on, until some later command reconciles again.
pub alert_finished-turns_off :
    (cfg : Config) (w : World) (e : Option Error) (s : InternalState)
    → Inv cfg.alert_queue_capacity s
    → s.shutting_down ≡ false
    → s.alert_running ≡ true
    → s.alerts ≡ []
    → s.temporary_alert_display ≡ true
    → s.desired_on ≡ true
    → w.stop_error ≡ none
    → let t = (turn cfg w (message (alert_finished s.alert_run e)) s).after in
      (t.desired_on ≡ true)
      × (t.display_running ≡ false)
      × (t.lifecycle ≡ off)
      × (t.news_running ≡ false)
unfolding turn handle on_alert_finished reconcile settle_display reply_after finish stop_display
alert_finished-turns_off cfg w e s v d a q temp on fine = ground arith

-- A defect: an alert waits for the news worker, which ends with an error of its own in place of
-- the cancellation. The turn does not reconcile, and the retry that it schedules is ignored while
-- an alert waits: after both, no worker runs and the alert still waits, until some later command
-- reconciles again.
pub news_stopped-strands_alert :
    (cfg : Config) (w w' : World) (e : Error) (s : InternalState)
    → s.shutting_down ≡ false
    → s.alert_running ≡ false
    → is_empty s.alerts ≡ false
    → s.desired_on ≡ true
    → is_failure (some e) ≡ true
    → let run = s.news_run in
      let o =
        loop cfg
          ((w, message (news_stopped run (some e))) ∷ (w', message (news_retry run)) ∷ [])
          s in
      (o.after.alerts ≡ s.alerts)
      × (o.after.alert_running ≡ false)
      × (o.after.news_running ≡ false)
      × (started o.effects ≡ [])
unfolding loop turn handle on_news_stopped on_news_retry
news_stopped-strands_alert cfg w w' e s d a q on bad = ground arith
