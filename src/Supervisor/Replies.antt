-- ===== src/Supervisor/Replies.antt =====
-- Every request is answered, once, and no command panics.
use atlas.Base.{
  ℕ, zero, suc, ◌+◌, ◌≡◌, refl, Bool, true, false, ◌||◌, ◌&&◌, not, Option, [], ◌++◌, is_none,
  if◌then◌else◌, arith,
}
use atlas.Errors.{Error}
use atlas.Alert.{Alert}
use atlas.Config.{Config}
use atlas.Supervisor.State.{
  InternalState, CommandKind, start, shutdown, add_alert, news_changed, news_pass, snapshot, stop,
  news_stopped, alert_finished, news_stop_timed_out, news_retry, Command, World,
}
use atlas.Supervisor.Workers.{
  start_attempts, start_display, stop_display, start_news, stop_news, start_alert, cancel_all,
}
use atlas.Supervisor.Loop.{
  Flow, continued, proceeding, reply, on_refresh, on_alert, on_news_stopped, on_news_stop_timed_out,
  on_news_retry, on_alert_finished, on_shutdown, on_reconcile, on_stop, handle, settle_display,
  settle_off, reconcile, reply_after, finish, turn,
}
use atlas.Supervisor.Effects.{count_if-append, is_reply, replies}

stop_news-replies : (s : InternalState) → replies (stop_news s).effects ≡ 0
unfolding stop_news
stop_news-replies s = ground arith

stop_display-replies : (w : World) (s : InternalState) → replies (stop_display w s).effects ≡ 0
unfolding stop_display
stop_display-replies w s = ground arith

cancel_all-replies : (b : Bool) (s : InternalState) → replies (cancel_all b s).effects ≡ 0
unfolding cancel_all stop_news
cancel_all-replies b s = ground arith

start_attempts-replies :
    (cfg : Config) (w : World) (n i : ℕ) (e : Option Error)
    → replies (start_attempts cfg w n i e).1 ≡ 0
unfolding start_attempts
start_attempts-replies cfg w zero i e = refl
start_attempts-replies cfg w (suc n) i e =
    ground (arith, start_attempts-replies cfg w n (i + 1) (w.start_error i))

start_display-replies :
    (cfg : Config) (w : World) (s : InternalState) → replies (start_display cfg w s).effects ≡ 0
unfolding start_display
start_display-replies cfg w s = grind (arith, start_attempts-replies, count_if-append)

settle_display-replies : (w : World) (s : InternalState) → replies (settle_display w s).effects ≡ 0
unfolding settle_display start_alert start_news stop_news stop_display
settle_display-replies w s = ground arith

settle_off-replies : (w : World) (s : InternalState) → replies (settle_off w s).effects ≡ 0
unfolding settle_off
settle_off-replies w s = grind (arith, cancel_all-replies, stop_display-replies, count_if-append)

reconcile-replies :
    (cfg : Config) (w : World) (s : InternalState) → replies (reconcile cfg w s).effects ≡ 0
unfolding reconcile
reconcile-replies cfg w s =
    grind
      (arith, start_display-replies, settle_display-replies, settle_off-replies, count_if-append)

-- The kinds that a caller waits for; a news pass and the loop's own messages have no answer.
abbrev pub is_request : CommandKind → Bool
is_request start = true
is_request shutdown = true
is_request (add_alert a) = true
is_request news_changed = true
is_request news_pass = false
is_request (CommandKind.reconcile d) = true
is_request snapshot = true
is_request stop = true
is_request (news_stopped run e) = false
is_request (alert_finished run e) = false
is_request (news_stop_timed_out run) = false
is_request (news_retry run) = false

-- The answers that a kind still has coming when its handler goes on.
abbrev owed : CommandKind → Flow → ℕ
owed k continued = 0
owed start proceeding = 1
owed shutdown proceeding = 1
owed (CommandKind.reconcile d) proceeding = 1
owed news_changed proceeding = 1
owed _ proceeding = 0

on_alert-replies :
    (cfg : Config) (wants : Bool) (a : Alert) (s : InternalState)
    → replies (on_alert cfg wants a s).effects ≡ (if wants then 1 else 0)
unfolding on_alert reply stop_news
on_alert-replies cfg true a s = ground arith
on_alert-replies cfg false a s = ground arith

on_reconcile-replies : (d : Bool) (s : InternalState) → replies (on_reconcile d s).effects ≡ 0
unfolding on_reconcile
on_reconcile-replies true s = refl
on_reconcile-replies false s = grind (arith, cancel_all-replies, count_if-append)

on_shutdown-replies : (s : InternalState) → replies (on_shutdown s).effects ≡ 0
unfolding on_shutdown
on_shutdown-replies s = grind (arith, cancel_all-replies, count_if-append)

on_stop-replies :
    (wants : Bool) (s : InternalState)
    → replies (on_stop wants s).effects ≡ (if wants then 1 else 0)
unfolding on_stop reply
on_stop-replies wants s = grind (arith, cancel_all-replies, count_if-append)

on_shutdown-value : (s : InternalState) → (on_shutdown s).value ≡ proceeding
unfolding on_shutdown
on_shutdown-value s = refl

on_reconcile-value : (d : Bool) (s : InternalState) → (on_reconcile d s).value ≡ proceeding
unfolding on_reconcile
on_reconcile-value true s = refl
on_reconcile-value false s = refl

-- What the handler answers and what it leaves owed make one answer for a request, none otherwise.
handle-replies :
    (cfg : Config) (w : World) (wants : Bool) (k : CommandKind) (s : InternalState)
    → let o = handle cfg w wants k s in
      replies o.effects + (if wants then owed k o.value else 0)
      ≡ (if wants && is_request k then 1 else 0)
unfolding handle
handle-replies cfg w wants start s = ground arith
handle-replies cfg w wants shutdown s = ground (arith, on_shutdown-replies s, on_shutdown-value s)
handle-replies cfg w wants (add_alert a) s = ground (arith, on_alert-replies cfg wants a s)
handle-replies cfg w wants news_changed s = unfold on_refresh in ground arith
handle-replies cfg w wants news_pass s = unfold on_refresh in ground arith
handle-replies cfg w wants (CommandKind.reconcile d) s =
    ground (arith, on_reconcile-replies d s, on_reconcile-value d s)
handle-replies cfg w wants snapshot s = unfold reply in ground arith
handle-replies cfg w wants stop s = ground (arith, on_stop-replies wants s)
handle-replies cfg w wants (news_stopped run e) s = unfold on_news_stopped in ground arith
handle-replies cfg w wants (alert_finished run e) s = unfold on_alert_finished in ground arith
handle-replies cfg w wants (news_stop_timed_out run) s =
    unfold on_news_stop_timed_out in ground arith
handle-replies cfg w wants (news_retry run) s = unfold on_news_retry in ground arith

reply_after-replies :
    (wants : Bool) (k : CommandKind) (e : Option Error) (s : InternalState)
    → replies (reply_after wants k e s).effects ≡ (if wants then owed k proceeding else 0)
unfolding reply_after reply
reply_after-replies wants start e s = ground arith
reply_after-replies wants _ e s = ground arith

finish-replies : (w : World) (s : InternalState) → replies (finish w s).effects ≡ 0
unfolding finish stop_display
finish-replies w s = ground arith

-- A turn answers a command with a reply channel exactly once if its kind is a request or its
-- context has ended, and otherwise never: no caller waits for an answer that does not come, and
-- the one-place reply channel never blocks the loop.
pub turn-replies_once :
    (cfg : Config) (w : World) (c : Command) (s : InternalState)
    → replies (turn cfg w c s).effects
      ≡ (if c.wants_reply && (not (is_none c.ctx_err) || is_request c.kind) then 1 else 0)
unfolding turn reply
turn-replies_once cfg w c s =
    let t = handle cfg w c.wants_reply c.kind s in
    let r = reconcile cfg w t.after in
    let a = reply_after c.wants_reply c.kind r.value r.after in
    let f = finish w a.after in
    ground (
      arith,
      handle-replies cfg w c.wants_reply c.kind s,
      reconcile-replies cfg w t.after,
      reply_after-replies c.wants_reply c.kind r.value r.after,
      finish-replies w a.after,
      count_if-append is_reply t.effects (r.effects ++ a.effects ++ f.effects),
      count_if-append is_reply t.effects (r.effects ++ (a.effects ++ f.effects)),
      count_if-append is_reply r.effects (a.effects ++ f.effects),
      count_if-append is_reply a.effects f.effects,
      count_if-append is_reply t.effects [],
    )
