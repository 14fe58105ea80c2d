-- ===== src/Supervisor/Invariant.antt =====
-- What holds of the loop's state between two turns, whatever the commands and the world did.
use atlas.Base.{
  ◌⊎◌, inl, inr, ℕ, ◌+◌, ◌≤◌, ◌≡◌, Bool, true, false, not, ◌||◌, ◌&&◌, Option, none, List, [], ◌∷◌,
  ℤ, pos, leb_ℤ, pos_part, length, length-append, is_empty, if◌then◌else◌, arith,
}
use atlas.Errors.{Error}
use atlas.Alert.{Alert}
use atlas.Config.{Config}
use atlas.Supervisor.State.{
  InternalState, initial, CommandKind, start, shutdown, add_alert, news_changed, news_pass,
  snapshot, stop, news_stopped, alert_finished, news_stop_timed_out, news_retry, Command, World,
}
use atlas.Supervisor.Workers.{
  start_display, stop_display, start_news, stop_news, start_alert, cancel_all,
}
use atlas.Supervisor.Loop.{
  reply, on_refresh, waiting, enqueue, on_alert, on_news_stopped, on_news_stop_timed_out,
  on_news_retry, on_alert_finished, on_shutdown, on_reconcile, on_stop, handle, settle_display,
  settle_off, reconcile, reply_after, finish, turn, loop,
}

-- `cap` is the capacity of the alert queue.
pub record Inv (cap : ℤ) (s : InternalState) : Type 0 where
  pub news_owned : s.news_cancel ≡ s.news_running
  pub alert_owned : s.alert_cancel ≡ s.alert_running
  pub exclusive : (s.news_running && s.alert_running) ≡ false
  pub stopping_runs : (s.news_stopping && not s.news_running) ≡ false
  pub lit : ((s.news_running || s.alert_running) && not s.display_running) ≡ false
  pub temporary_waits : (s.temporary_alert_display && s.news_running && is_empty s.alerts) ≡ false
  pub bounded : length s.alerts ≤ pos_part cap + (if s.alert_running then 0 else 1)
  pub counted_below : s.queued_alerts ≤ length s.alerts
  pub counted_above : length s.alerts ≤ s.queued_alerts + (if s.alert_running then 0 else 1)

pub initial-Inv : (cap : ℤ) → Inv cap initial
unfolding initial
initial-Inv cap = ground arith

stop_news-Inv : (cap : ℤ) (s : InternalState) → Inv cap s → Inv cap (stop_news s).after
unfolding stop_news
stop_news-Inv cap s v = ground arith

pub cancel_all-Inv :
    (cap : ℤ) (b : Bool) (s : InternalState) → Inv cap s → Inv cap (cancel_all b s).after
unfolding cancel_all
cancel_all-Inv cap b s v = ground (arith, stop_news-Inv cap s)

on_refresh-Inv :
    (cap : ℤ) (w : World) (s : InternalState) → Inv cap s → Inv cap (on_refresh w s).after
unfolding on_refresh
on_refresh-Inv cap w s v = ground arith

enqueue-Inv :
    (cap : ℤ) (a : Alert) (s : InternalState)
    → leb_ℤ cap (pos (waiting s)) ≡ false
    → Inv cap s
    → Inv cap (enqueue a s)
unfolding enqueue
enqueue-Inv cap a s room v = ground (arith, length-append s.alerts (a ∷ []))

-- The states that the handler of an alert ends in.
on_alert-ends :
    (cfg : Config) (wants : Bool) (a : Alert) (s : InternalState)
    → let t = (on_alert cfg wants a s).after in
      (t ≡ s)
      ⊎ (leb_ℤ cfg.alert_queue_capacity (pos (waiting s)) ≡ false)
        × ((t ≡ enqueue a s) ⊎ (t ≡ (stop_news (enqueue a s)).after))
unfolding on_alert reply
on_alert-ends cfg true a s = ground arith
on_alert-ends cfg false a s = ground arith

on_alert-Inv :
    (cfg : Config) (wants : Bool) (a : Alert) (s : InternalState)
    → Inv cfg.alert_queue_capacity s
    → Inv cfg.alert_queue_capacity (on_alert cfg wants a s).after
on_alert-Inv cfg wants a s v =
    let cap = cfg.alert_queue_capacity in
    elim (on_alert-ends cfg wants a s) [
      | inl same ↦ rw same v
      | inr (room, inl queued) ↦ rw queued (enqueue-Inv cap a s room v)
      | inr (room, inr paused) ↦ rw paused (stop_news-Inv cap _ (enqueue-Inv cap a s room v))
    ]

on_news_stopped-Inv :
    (cap : ℤ) (run : ℕ) (e : Option Error) (s : InternalState)
    → Inv cap s
    → Inv cap (on_news_stopped run e s).after
unfolding on_news_stopped
on_news_stopped-Inv cap run e s v = ground arith

on_news_stop_timed_out-Inv :
    (cap : ℤ) (run : ℕ) (s : InternalState)
    → Inv cap s
    → Inv cap (on_news_stop_timed_out run s).after
unfolding on_news_stop_timed_out
on_news_stop_timed_out-Inv cap run s v = ground arith

on_news_retry-Inv :
    (cap : ℤ) (run : ℕ) (s : InternalState) → Inv cap s → Inv cap (on_news_retry run s).after
unfolding on_news_retry
on_news_retry-Inv cap run s v = ground arith

on_alert_finished-Inv :
    (cap : ℤ) (run : ℕ) (e : Option Error) (s : InternalState)
    → Inv cap s
    → Inv cap (on_alert_finished run e s).after
unfolding on_alert_finished
on_alert_finished-Inv cap run e s v = ground arith

-- Flags that the invariant does not read.
abbrev with_desired : Bool → InternalState → InternalState
with_desired d s = record s { state = record s.state { desired_on = d } }

on_shutdown-Inv : (cap : ℤ) (s : InternalState) → Inv cap s → Inv cap (on_shutdown s).after
unfolding on_shutdown
on_shutdown-Inv cap s v =
    cancel_all-Inv cap true
      (record (with_desired false s) { force_stop_display = s.display_running }) (ground arith)

on_reconcile-Inv :
    (cap : ℤ) (d : Bool) (s : InternalState) → Inv cap s → Inv cap (on_reconcile d s).after
unfolding on_reconcile
on_reconcile-Inv cap true s v = ground arith
on_reconcile-Inv cap false s v =
    cancel_all-Inv cap true (record (with_desired false s) { force_stop_display = true })
      (ground arith)

on_stop-Inv :
    (cap : ℤ) (wants : Bool) (s : InternalState) → Inv cap s → Inv cap (on_stop wants s).after
unfolding on_stop reply
on_stop-Inv cap wants s v =
    let stopped = record (with_desired false s) {
      shutting_down = true;
      force_stop_display = true;
    } in
    ground (arith, cancel_all-Inv cap false stopped (ground arith))

pub handle-Inv :
    (cfg : Config) (w : World) (wants : Bool) (k : CommandKind) (s : InternalState)
    → Inv cfg.alert_queue_capacity s
    → Inv cfg.alert_queue_capacity (handle cfg w wants k s).after
unfolding handle
handle-Inv cfg w wants start s v = ground arith
handle-Inv cfg w wants shutdown s v = on_shutdown-Inv _ s v
handle-Inv cfg w wants (add_alert a) s v = on_alert-Inv cfg wants a s v
handle-Inv cfg w wants news_changed s v = on_refresh-Inv _ w s v
handle-Inv cfg w wants news_pass s v = on_refresh-Inv _ w s v
handle-Inv cfg w wants (CommandKind.reconcile d) s v = on_reconcile-Inv _ d s v
handle-Inv cfg w wants snapshot s v = unfold reply in ground arith
handle-Inv cfg w wants stop s v = on_stop-Inv _ wants s v
handle-Inv cfg w wants (news_stopped run e) s v = on_news_stopped-Inv _ run e s v
handle-Inv cfg w wants (alert_finished run e) s v = on_alert_finished-Inv _ run e s v
handle-Inv cfg w wants (news_stop_timed_out run) s v = on_news_stop_timed_out-Inv _ run s v
handle-Inv cfg w wants (news_retry run) s v = on_news_retry-Inv _ run s v

pub start_display-Inv :
    (cfg : Config) (w : World) (cap : ℤ) (s : InternalState)
    → Inv cap s
    → Inv cap (start_display cfg w s).after
unfolding start_display
start_display-Inv cfg w cap s v = ground arith

-- The display may be stopped once no worker runs.
stop_display-Inv :
    (cap : ℤ) (w : World) (s : InternalState)
    → s.news_running ≡ false
    → s.alert_running ≡ false
    → Inv cap s
    → Inv cap (stop_display w s).after
unfolding stop_display
stop_display-Inv cap w s n a v = ground arith

pub start_display-lit :
    (cfg : Config) (w : World) (s : InternalState)
    → (start_display cfg w s).value ≡ none
    → (start_display cfg w s).after.display_running ≡ true
unfolding start_display
start_display-lit cfg w s h = ground arith

settle_display-Inv :
    (cap : ℤ) (w : World) (s : InternalState)
    → s.display_running ≡ true
    → Inv cap s
    → Inv cap (settle_display w s).after
unfolding settle_display start_alert start_news
settle_display-Inv cap w s lit v = ground (
  arith,
  stop_news-Inv cap s,
  stop_display-Inv cap w (record s { temporary_alert_display = false }),
)

settle_off-Inv :
    (cap : ℤ) (w : World) (s : InternalState) → Inv cap s → Inv cap (settle_off w s).after
unfolding settle_off
settle_off-Inv cap w s v =
    ground (arith, cancel_all-Inv cap true s, stop_display-Inv cap w (cancel_all true s).after)

pub reconcile-Inv :
    (cfg : Config) (w : World) (cap : ℤ) (s : InternalState)
    → Inv cap s
    → Inv cap (reconcile cfg w s).after
unfolding reconcile
reconcile-Inv cfg w cap s v = ground (
  arith,
  settle_off-Inv cap w s,
  settle_display-Inv cap w s,
  start_display-Inv cfg w cap s,
  start_display-lit cfg w s,
  settle_display-Inv cap w (start_display cfg w s).after,
)

reply_after-after :
    (wants : Bool) (k : CommandKind) (e : Option Error) (s : InternalState)
    → (reply_after wants k e s).after ≡ s
unfolding reply_after reply
reply_after-after wants start e s = ground arith
reply_after-after wants _ e s = ground arith

finish-Inv : (cap : ℤ) (w : World) (s : InternalState) → Inv cap s → Inv cap (finish w s).after
unfolding finish
finish-Inv cap w s v = ground (arith, stop_display-Inv cap w s)

-- Every turn keeps the invariant, whatever the command and the world: each worker has its cancel
-- function while it runs, news and alert are never on the display together, no worker runs on a
-- dark display, and the queue holds at most its capacity beside the alert whose turn it is.
pub turn-Inv :
    (cfg : Config) (w : World) (c : Command) (s : InternalState)
    → Inv cfg.alert_queue_capacity s
    → Inv cfg.alert_queue_capacity (turn cfg w c s).after
unfolding turn reply
turn-Inv cfg w c s v =
    let cap = cfg.alert_queue_capacity in
    let t = (handle cfg w c.wants_reply c.kind s).after in
    let r = reconcile cfg w t in
    ground (
      arith,
      handle-Inv cfg w c.wants_reply c.kind s v,
      reconcile-Inv cfg w cap t,
      reply_after-after c.wants_reply c.kind r.value r.after,
      finish-Inv cap w r.after,
    )

loop-Inv :
    (cfg : Config) (cs : List (World × Command)) (s : InternalState)
    → Inv cfg.alert_queue_capacity s
    → Inv cfg.alert_queue_capacity (loop cfg cs s).after
unfolding loop
loop-Inv cfg [] s v = v
loop-Inv cfg ((w, c) ∷ cs) s v =
    ground (arith, turn-Inv cfg w c s v, loop-Inv cfg cs (turn cfg w c s).after)

-- So it holds after any commands at all.
pub loop-initial-Inv :
    (cfg : Config) (cs : List (World × Command))
    → Inv cfg.alert_queue_capacity (loop cfg cs initial).after
loop-initial-Inv cfg cs = loop-Inv cfg cs initial (initial-Inv cfg.alert_queue_capacity)
