-- ===== src/Supervisor/Winding.antt =====
-- The loop while it shuts down: no worker starts.
use atlas.Base.{ℕ, ◌≡◌, Bool, true, false, ◌&&◌, not, Option, none, List, [], ◌++◌, arith}
use atlas.Errors.{Error}
use atlas.Alert.{Alert}
use atlas.Config.{Config}
use atlas.Supervisor.State.{
  InternalState, CommandKind, start, shutdown, add_alert, news_changed, news_pass, snapshot, stop,
  news_stopped, alert_finished, news_stop_timed_out, news_retry, Command, World, Effect,
}
use atlas.Supervisor.State.{news_started, alert_started}
use atlas.Supervisor.Workers.{stop_display, stop_news, cancel_all}
use atlas.Supervisor.Loop.{
  reply, on_refresh, on_alert, on_news_stopped, on_news_stop_timed_out, on_news_retry,
  on_alert_finished, on_shutdown, on_reconcile, on_stop, handle, reconcile, reply_after, finish,
  turn,
}
use atlas.Supervisor.Effects.{count_if, count_if-append}
use atlas.Supervisor.Shutdown.{cancel_all-flags}

abbrev is_start : Effect → Bool
is_start (news_started run) = true
is_start (alert_started run a) = true
is_start _ = false

-- How many workers a list of effects starts.
abbrev pub worker_starts : List Effect → ℕ
worker_starts = count_if is_start

-- What a command may do to a loop that is shutting down: no worker begins to run.
abbrev Winds : InternalState → InternalState → Type 0
Winds s t =
    (t.shutting_down ≡ true)
    × ((t.news_running && not s.news_running) ≡ false)
    × ((t.alert_running && not s.alert_running) ≡ false)

on_alert-Winds :
    (cfg : Config) (wants : Bool) (a : Alert) (s : InternalState)
    → s.shutting_down ≡ true
    → Winds s (on_alert cfg wants a s).after
unfolding on_alert reply
on_alert-Winds cfg wants a s d = ground arith

handle-Winds :
    (cfg : Config) (w : World) (wants : Bool) (k : CommandKind) (s : InternalState)
    → s.shutting_down ≡ true
    → Winds s (handle cfg w wants k s).after
unfolding handle
handle-Winds cfg w wants start s d = ground arith
handle-Winds cfg w wants shutdown s d = unfold on_shutdown in grind (arith, cancel_all-flags)
handle-Winds cfg w wants (add_alert a) s d = on_alert-Winds cfg wants a s d
handle-Winds cfg w wants news_changed s d = unfold on_refresh in ground arith
handle-Winds cfg w wants news_pass s d = unfold on_refresh in ground arith
handle-Winds cfg w wants (CommandKind.reconcile true) s d = unfold on_reconcile in ground arith
handle-Winds cfg w wants (CommandKind.reconcile false) s d =
    unfold on_reconcile in grind (arith, cancel_all-flags)
handle-Winds cfg w wants snapshot s d = unfold reply in ground arith
handle-Winds cfg w wants stop s d = unfold on_stop reply in grind (arith, cancel_all-flags)
handle-Winds cfg w wants (news_stopped run e) s d = unfold on_news_stopped in ground arith
handle-Winds cfg w wants (alert_finished run e) s d = unfold on_alert_finished in ground arith
handle-Winds cfg w wants (news_stop_timed_out run) s d =
    unfold on_news_stop_timed_out in ground arith
handle-Winds cfg w wants (news_retry run) s d = unfold on_news_retry in ground arith

reply_after-after :
    (wants : Bool) (k : CommandKind) (e : Option Error) (s : InternalState)
    → (reply_after wants k e s).after ≡ s
unfolding reply_after reply
reply_after-after wants start e s = ground arith
reply_after-after wants _ e s = ground arith

finish-Winds : (w : World) (s : InternalState) → s.shutting_down ≡ true → Winds s (finish w s).after
unfolding finish stop_display
finish-Winds w s d = ground arith

cancel_all-starts : (b : Bool) (s : InternalState) → worker_starts (cancel_all b s).effects ≡ 0
unfolding cancel_all stop_news
cancel_all-starts b s = ground arith

on_alert-starts :
    (cfg : Config) (wants : Bool) (a : Alert) (s : InternalState)
    → s.shutting_down ≡ true
    → worker_starts (on_alert cfg wants a s).effects ≡ 0
unfolding on_alert reply
on_alert-starts cfg true a s d = ground arith
on_alert-starts cfg false a s d = ground arith

handle-starts :
    (cfg : Config) (w : World) (wants : Bool) (k : CommandKind) (s : InternalState)
    → s.shutting_down ≡ true
    → worker_starts (handle cfg w wants k s).effects ≡ 0
unfolding handle
handle-starts cfg w wants start s d = ground arith
handle-starts cfg w wants shutdown s d =
    unfold on_shutdown in grind (arith, cancel_all-starts, count_if-append)
handle-starts cfg w wants (add_alert a) s d = on_alert-starts cfg wants a s d
handle-starts cfg w wants news_changed s d = unfold on_refresh in ground arith
handle-starts cfg w wants news_pass s d = unfold on_refresh in ground arith
handle-starts cfg w wants (CommandKind.reconcile true) s d = unfold on_reconcile in ground arith
handle-starts cfg w wants (CommandKind.reconcile false) s d =
    unfold on_reconcile in grind (arith, cancel_all-starts, count_if-append)
handle-starts cfg w wants snapshot s d = unfold reply in ground arith
handle-starts cfg w wants stop s d =
    unfold on_stop reply in grind (arith, cancel_all-starts, count_if-append)
handle-starts cfg w wants (news_stopped run e) s d = unfold on_news_stopped in ground arith
handle-starts cfg w wants (alert_finished run e) s d = unfold on_alert_finished in ground arith
handle-starts cfg w wants (news_stop_timed_out run) s d =
    unfold on_news_stop_timed_out in ground arith
handle-starts cfg w wants (news_retry run) s d = unfold on_news_retry in ground arith

reply_after-starts :
    (wants : Bool) (k : CommandKind) (e : Option Error) (s : InternalState)
    → worker_starts (reply_after wants k e s).effects ≡ 0
unfolding reply_after reply
reply_after-starts wants start e s = ground arith
reply_after-starts wants _ e s = ground arith

finish-starts : (w : World) (s : InternalState) → worker_starts (finish w s).effects ≡ 0
unfolding finish stop_display
finish-starts w s = ground arith

turn-flags :
    (cfg : Config) (w : World) (c : Command) (s : InternalState)
    → s.shutting_down ≡ true
    → Winds s (turn cfg w c s).after
unfolding turn reply reconcile
turn-flags cfg w c s d =
    let t = (handle cfg w c.wants_reply c.kind s).after in
    ground (
      arith,
      handle-Winds cfg w c.wants_reply c.kind s d,
      reply_after-after c.wants_reply c.kind none t,
      finish-Winds w t,
    )

reconcile-rests :
    (cfg : Config) (w : World) (s : InternalState)
    → s.shutting_down ≡ true
    → (worker_starts (reconcile cfg w s).effects ≡ 0) × ((reconcile cfg w s).after ≡ s)
unfolding reconcile
reconcile-rests cfg w s d = ground arith

turn-starts :
    (cfg : Config) (w : World) (c : Command) (s : InternalState)
    → s.shutting_down ≡ true
    → worker_starts (turn cfg w c s).effects ≡ 0
unfolding turn reply
turn-starts cfg w c s d =
    let t = handle cfg w c.wants_reply c.kind s in
    let r = reconcile cfg w t.after in
    let a = reply_after c.wants_reply c.kind r.value r.after in
    let f = finish w a.after in
    let shutting = handle-Winds cfg w c.wants_reply c.kind s d in
    ground (
      arith,
      handle-starts cfg w c.wants_reply c.kind s d,
      reconcile-rests cfg w t.after shutting.0,
      reply_after-starts c.wants_reply c.kind r.value r.after,
      finish-starts w a.after,
      count_if-append is_start t.effects (r.effects ++ (a.effects ++ f.effects)),
      count_if-append is_start r.effects (a.effects ++ f.effects),
      count_if-append is_start a.effects f.effects,
      count_if-append is_start t.effects [],
    )

-- A loop that is shutting down goes on shutting down whatever comes; the turn starts no worker, in
-- the place of one that has ended either, and no worker that did not run runs after it.
pub turn-Winds :
    (cfg : Config) (w : World) (c : Command) (s : InternalState)
    → s.shutting_down ≡ true
    → let o = turn cfg w c s in
      (worker_starts o.effects ≡ 0)
      × (o.after.shutting_down ≡ true)
      × ((o.after.news_running && not s.news_running) ≡ false)
      × ((o.after.alert_running && not s.alert_running) ≡ false)
turn-Winds cfg w c s d =
    let flags = turn-flags cfg w c s d in (turn-starts cfg w c s d, flags.0, flags.1, flags.2)
