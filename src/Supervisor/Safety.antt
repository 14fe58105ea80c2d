-- ===== src/Supervisor/Safety.antt =====
-- No command makes the loop call a cancel function that is nil.
use atlas.Base.{ℕ, zero, suc, ◌+◌, ◌≡◌, refl, Bool, true, false, Option, [], ◌++◌, arith, ℤ}
use atlas.Errors.{Error}
use atlas.Alert.{Alert}
use atlas.Config.{Config}
use atlas.Supervisor.State.{
  InternalState, CommandKind, start, shutdown, add_alert, news_changed, news_pass, snapshot, stop,
  news_stopped, alert_finished, news_stop_timed_out, news_retry, Command, World,
}
use atlas.Supervisor.Workers.{
  start_attempts, start_display, stop_display, start_news, stop_news, start_alert, cancel_all,
}
use atlas.Supervisor.Loop.{
  reply, on_refresh, enqueue, on_alert, on_news_stopped, on_news_stop_timed_out, on_news_retry,
  on_alert_finished, on_shutdown, on_reconcile, on_stop, handle, settle_display, settle_off,
  reconcile, reply_after, finish, turn,
}
use atlas.Supervisor.Effects.{count_if-append, is_nil_call, nil_calls}
use atlas.Supervisor.Invariant.{Inv, handle-Inv, start_display-Inv}

cancel_all-nil_calls : (b : Bool) (s : InternalState) → nil_calls (cancel_all b s).effects ≡ 0
unfolding cancel_all stop_news
cancel_all-nil_calls b s = ground arith

start_attempts-nil_calls :
    (cfg : Config) (w : World) (n i : ℕ) (e : Option Error)
    → nil_calls (start_attempts cfg w n i e).1 ≡ 0
unfolding start_attempts
start_attempts-nil_calls cfg w zero i e = refl
start_attempts-nil_calls cfg w (suc n) i e =
    ground (arith, start_attempts-nil_calls cfg w n (i + 1) (w.start_error i))

start_display-nil_calls :
    (cfg : Config) (w : World) (s : InternalState) → nil_calls (start_display cfg w s).effects ≡ 0
unfolding start_display
start_display-nil_calls cfg w s = grind (arith, start_attempts-nil_calls, count_if-append)

settle_display-nil_calls :
    (cap : ℤ) (w : World) (s : InternalState)
    → Inv cap s
    → nil_calls (settle_display w s).effects ≡ 0
unfolding settle_display start_alert start_news stop_news stop_display
settle_display-nil_calls cap w s v = let owned = v.news_owned in ground arith

stop_display-nil_calls : (w : World) (s : InternalState) → nil_calls (stop_display w s).effects ≡ 0
unfolding stop_display
stop_display-nil_calls w s = ground arith

settle_off-nil_calls : (w : World) (s : InternalState) → nil_calls (settle_off w s).effects ≡ 0
unfolding settle_off
settle_off-nil_calls w s =
    grind (arith, cancel_all-nil_calls, stop_display-nil_calls, count_if-append)

reconcile-nil_calls :
    (cfg : Config) (w : World) (cap : ℤ) (s : InternalState)
    → Inv cap s
    → nil_calls (reconcile cfg w s).effects ≡ 0
unfolding reconcile
reconcile-nil_calls cfg w cap s v =
    let t = start_display cfg w s in
    ground (
      arith,
      start_display-nil_calls cfg w s,
      settle_off-nil_calls w s,
      settle_display-nil_calls cap w s v,
      settle_display-nil_calls cap w t.after (start_display-Inv cfg w cap s v),
      count_if-append is_nil_call t.effects (settle_display w t.after).effects,
      count_if-append is_nil_call t.effects [],
    )

on_alert-nil_calls :
    (cfg : Config) (wants : Bool) (a : Alert) (s : InternalState)
    → Inv cfg.alert_queue_capacity s
    → nil_calls (on_alert cfg wants a s).effects ≡ 0
unfolding on_alert reply stop_news enqueue
on_alert-nil_calls cfg true a s v = let owned = v.news_owned in ground arith
on_alert-nil_calls cfg false a s v = let owned = v.news_owned in ground arith

handle-nil_calls :
    (cfg : Config) (w : World) (wants : Bool) (k : CommandKind) (s : InternalState)
    → Inv cfg.alert_queue_capacity s
    → nil_calls (handle cfg w wants k s).effects ≡ 0
unfolding handle
handle-nil_calls cfg w wants start s v = refl
handle-nil_calls cfg w wants shutdown s v =
    unfold on_shutdown in grind (arith, cancel_all-nil_calls, count_if-append)
handle-nil_calls cfg w wants (add_alert a) s v = on_alert-nil_calls cfg wants a s v
handle-nil_calls cfg w wants news_changed s v = unfold on_refresh in ground arith
handle-nil_calls cfg w wants news_pass s v = unfold on_refresh in ground arith
handle-nil_calls cfg w wants (CommandKind.reconcile true) s v = unfold on_reconcile in refl
handle-nil_calls cfg w wants (CommandKind.reconcile false) s v =
    unfold on_reconcile in grind (arith, cancel_all-nil_calls, count_if-append)
handle-nil_calls cfg w wants snapshot s v = unfold reply in ground arith
handle-nil_calls cfg w wants stop s v =
    unfold on_stop reply in grind (arith, cancel_all-nil_calls, count_if-append)
handle-nil_calls cfg w wants (news_stopped run e) s v = unfold on_news_stopped in ground arith
handle-nil_calls cfg w wants (alert_finished run e) s v = unfold on_alert_finished in ground arith
handle-nil_calls cfg w wants (news_stop_timed_out run) s v =
    unfold on_news_stop_timed_out in ground arith
handle-nil_calls cfg w wants (news_retry run) s v = unfold on_news_retry in ground arith

reply_after-nil_calls :
    (wants : Bool) (k : CommandKind) (e : Option Error) (s : InternalState)
    → nil_calls (reply_after wants k e s).effects ≡ 0
unfolding reply_after reply
reply_after-nil_calls wants start e s = ground arith
reply_after-nil_calls wants _ e s = ground arith

finish-nil_calls : (w : World) (s : InternalState) → nil_calls (finish w s).effects ≡ 0
unfolding finish stop_display
finish-nil_calls w s = ground arith

-- From a state that satisfies the invariant, a turn never calls a nil cancel function: `stopNews`
-- is never reached with `newsCancel` nil, so it does not panic.
pub turn-nil_calls_none :
    (cfg : Config) (w : World) (c : Command) (s : InternalState)
    → Inv cfg.alert_queue_capacity s
    → nil_calls (turn cfg w c s).effects ≡ 0
unfolding turn reply
turn-nil_calls_none cfg w c s v =
    let t = handle cfg w c.wants_reply c.kind s in
    let r = reconcile cfg w t.after in
    let a = reply_after c.wants_reply c.kind r.value r.after in
    let f = finish w a.after in
    ground (
      arith,
      handle-nil_calls cfg w c.wants_reply c.kind s v,
      reconcile-nil_calls cfg w cfg.alert_queue_capacity t.after
          (handle-Inv cfg w c.wants_reply c.kind s v),
      reply_after-nil_calls c.wants_reply c.kind r.value r.after,
      finish-nil_calls w a.after,
      count_if-append is_nil_call t.effects (r.effects ++ (a.effects ++ f.effects)),
      count_if-append is_nil_call r.effects (a.effects ++ f.effects),
      count_if-append is_nil_call a.effects f.effects,
      count_if-append is_nil_call t.effects [],
    )
