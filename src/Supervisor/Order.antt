-- ===== src/Supervisor/Order.antt =====
-- The order of the alerts: the queue is first in, first out, and an alert that is dropped was
-- dropped with the whole queue.
use atlas.Base.{
  ℕ, zero, suc, ◌+◌, ◌≡◌, refl, Bool, true, false, ◌||◌, ◌&&◌, not, Option, List, [], ◌∷◌, ◌++◌,
  is_none, if◌then◌else◌, arith, pos, leb_ℤ, sym, ◌∙◌, ◌⊎◌, inl, inr, append-nil, append_assoc,
  subst, Bool-cases,
}
use atlas.Errors.{Error}
use atlas.Alert.{Alert}
use atlas.Config.{Config}
use atlas.Supervisor.State.{
  InternalState, initial, CommandKind, start, shutdown, add_alert, news_changed, news_pass,
  snapshot, stop, news_stopped, alert_finished, news_stop_timed_out, news_retry, Command, World,
}
use atlas.Supervisor.Workers.{
  start_attempts, start_display, stop_display, start_news, stop_news, start_alert, cancel_all,
}
use atlas.Supervisor.Loop.{
  reply, waiting, on_refresh, enqueue, on_alert, on_news_stopped, on_news_stop_timed_out,
  on_news_retry, on_alert_finished, on_shutdown, on_reconcile, on_stop, handle, settle_display,
  settle_off, reconcile, reply_after, finish, turn, loop,
}
use mathlib.Core.List.{Sublist, nil-sublist, sublist-append_right}
use mathlib.Core.List.Sublist
use atlas.Supervisor.Effects.{started, started-append}

-- Whether the loop takes an alert in: it is not shutting down, the display is on or alerts may
-- light it, and the queue has room.
unfoldable pub admits : Config → InternalState → Bool
admits cfg s =
    not s.shutting_down
    && (s.desired_on || cfg.allow_alerts_outside_active_window)
    && not (leb_ℤ cfg.alert_queue_capacity (pos (waiting s)))

unfoldable pub admitted_of : Config → InternalState → CommandKind → List Alert
unfolding admits
admitted_of cfg s (add_alert a) = if admits cfg s then a ∷ [] else []
admitted_of cfg s _ = []

-- The alerts that a command adds to the queue.
unfoldable pub admitted : Config → InternalState → Command → List Alert
admitted cfg s c = if is_none c.ctx_err then admitted_of cfg s c.kind else []

-- How a queue of alerts moves: it is dropped whole and nothing starts, or what starts is taken
-- from the front of the queue with the new alerts at its end.
abbrev pub Moves : (before new started after : List Alert) → Type 0
Moves before new shown after = ((shown ≡ []) × (after ≡ [])) ⊎ (before ++ new ≡ shown ++ after)

cancel_all-started : (b : Bool) (s : InternalState) → started (cancel_all b s).effects ≡ []
unfolding cancel_all stop_news
cancel_all-started b s = ground arith

cancel_all-alerts : (b : Bool) (s : InternalState) → (cancel_all b s).after.alerts ≡ []
unfolding cancel_all stop_news
cancel_all-alerts b s = ground arith

stop_display-started : (w : World) (s : InternalState) → started (stop_display w s).effects ≡ []
unfolding stop_display
stop_display-started w s = ground arith

stop_display-alerts : (w : World) (s : InternalState) → (stop_display w s).after.alerts ≡ s.alerts
unfolding stop_display
stop_display-alerts w s = ground arith

start_attempts-started :
    (cfg : Config) (w : World) (n i : ℕ) (e : Option Error)
    → started (start_attempts cfg w n i e).1 ≡ []
unfolding start_attempts
start_attempts-started cfg w zero i e = refl
start_attempts-started cfg w (suc n) i e =
    ground (arith, start_attempts-started cfg w n (i + 1) (w.start_error i))

start_display-started :
    (cfg : Config) (w : World) (s : InternalState) → started (start_display cfg w s).effects ≡ []
unfolding start_display
start_display-started cfg w s = grind (arith, start_attempts-started, started-append)

start_display-alerts :
    (cfg : Config) (w : World) (s : InternalState) → (start_display cfg w s).after.alerts ≡ s.alerts
unfolding start_display
start_display-alerts cfg w s = ground arith

settle_display-order :
    (w : World) (s : InternalState)
    → s.alerts ≡ started (settle_display w s).effects ++ (settle_display w s).after.alerts
unfolding settle_display start_alert start_news stop_news stop_display
settle_display-order w s = ground arith

settle_off-started : (w : World) (s : InternalState) → started (settle_off w s).effects ≡ []
unfolding settle_off
settle_off-started w s = grind (arith, cancel_all-started, stop_display-started, started-append)

settle_off-alerts : (w : World) (s : InternalState) → (settle_off w s).after.alerts ≡ []
unfolding settle_off
settle_off-alerts w s = grind (arith, cancel_all-alerts, stop_display-alerts)

reconcile-Moves :
    (cfg : Config) (w : World) (s : InternalState)
    → Moves s.alerts [] (started (reconcile cfg w s).effects) (reconcile cfg w s).after.alerts
unfolding reconcile
reconcile-Moves cfg w s =
    let t = start_display cfg w s in
    ground (
      arith,
      append-nil s.alerts,
      settle_off-started w s,
      settle_off-alerts w s,
      settle_display-order w s,
      settle_display-order w t.after,
      start_display-started cfg w s,
      start_display-alerts cfg w s,
      started-append t.effects (settle_display w t.after).effects,
      started-append t.effects [],
    )

on_alert-Moves :
    (cfg : Config) (wants : Bool) (a : Alert) (s : InternalState)
    → (started (on_alert cfg wants a s).effects ≡ [])
      × ((on_alert cfg wants a s).after.alerts ≡ s.alerts ++ admitted_of cfg s (add_alert a))
unfolding on_alert reply stop_news enqueue admitted_of
on_alert-Moves cfg true a s = ground (arith, append-nil s.alerts)
on_alert-Moves cfg false a s = ground (arith, append-nil s.alerts)

handle-Moves :
    (cfg : Config) (w : World) (wants : Bool) (k : CommandKind) (s : InternalState)
    → (started (handle cfg w wants k s).effects ≡ [])
      × (((handle cfg w wants k s).after.alerts ≡ [])
          ⊎ ((handle cfg w wants k s).after.alerts ≡ s.alerts ++ admitted_of cfg s k))
unfolding handle admitted_of
handle-Moves cfg w wants start s = ground (arith, append-nil s.alerts)
handle-Moves cfg w wants shutdown s =
    unfold on_shutdown in
    (grind (arith, cancel_all-started, started-append), inl (grind (arith, cancel_all-alerts)))
handle-Moves cfg w wants (add_alert a) s = let m = on_alert-Moves cfg wants a s in (m.0, inr m.1)
handle-Moves cfg w wants news_changed s = unfold on_refresh in ground (arith, append-nil s.alerts)
handle-Moves cfg w wants news_pass s = unfold on_refresh in ground (arith, append-nil s.alerts)
handle-Moves cfg w wants (CommandKind.reconcile true) s =
    unfold on_reconcile in ground (arith, append-nil s.alerts)
handle-Moves cfg w wants (CommandKind.reconcile false) s =
    unfold on_reconcile in
    (grind (arith, cancel_all-started, started-append), inl (grind (arith, cancel_all-alerts)))
handle-Moves cfg w wants snapshot s = unfold reply in ground (arith, append-nil s.alerts)
handle-Moves cfg w wants stop s =
    unfold on_stop reply in
    (grind (arith, cancel_all-started, started-append), inl (grind (arith, cancel_all-alerts)))
handle-Moves cfg w wants (news_stopped run e) s =
    unfold on_news_stopped in ground (arith, append-nil s.alerts)
handle-Moves cfg w wants (alert_finished run e) s =
    unfold on_alert_finished in ground (arith, append-nil s.alerts)
handle-Moves cfg w wants (news_stop_timed_out run) s =
    unfold on_news_stop_timed_out in ground (arith, append-nil s.alerts)
handle-Moves cfg w wants (news_retry run) s =
    unfold on_news_retry in ground (arith, append-nil s.alerts)

reply_after-order :
    (wants : Bool) (k : CommandKind) (e : Option Error) (s : InternalState)
    → (started (reply_after wants k e s).effects ≡ [])
      × ((reply_after wants k e s).after.alerts ≡ s.alerts)
unfolding reply_after reply
reply_after-order wants start e s = ground arith
reply_after-order wants _ e s = ground arith

finish-order :
    (w : World) (s : InternalState)
    → (started (finish w s).effects ≡ []) × ((finish w s).after.alerts ≡ s.alerts)
unfolding finish stop_display
finish-order w s = ground arith

Moves-chain :
    (before new mid shown after : List Alert)
    → (mid ≡ []) ⊎ (mid ≡ before ++ new)
    → Moves mid [] shown after
    → Moves before new shown after
Moves-chain before new mid shown after (inl e) (inl m) = inl m
Moves-chain before new mid [] [] (inl e) (inr m) = inl (refl, refl)
Moves-chain before new mid [] (x ∷ after) (inl e) (inr m) = absurd (ground arith)
Moves-chain before new mid (x ∷ shown) after (inl e) (inr m) = absurd (ground arith)
Moves-chain before new mid shown after (inr e) (inl m) = inl m
Moves-chain before new mid shown after (inr e) (inr m) = inr (sym e ∙ sym (append-nil mid) ∙ m)

-- In one turn the queue of alerts moves as a queue does: an alert that is admitted goes to its
-- end, an alert that starts is taken from its front, or the whole queue is dropped and none starts.
pub turn-Moves :
    (cfg : Config) (w : World) (c : Command) (s : InternalState)
    → let o = turn cfg w c s in Moves s.alerts (admitted cfg s c) (started o.effects) o.after.alerts
unfolding turn reply admitted
turn-Moves cfg w c s =
    let t = handle cfg w c.wants_reply c.kind s in
    let r = reconcile cfg w t.after in
    let a = reply_after c.wants_reply c.kind r.value r.after in
    let f = finish w a.after in
    let h = handle-Moves cfg w c.wants_reply c.kind s in
    ground (
      arith,
      append-nil s.alerts,
      h,
      append-nil t.after.alerts,
      Moves-chain s.alerts (admitted_of cfg s c.kind) t.after.alerts (started r.effects)
          r.after.alerts h.1 (reconcile-Moves cfg w t.after),
      reply_after-order c.wants_reply c.kind r.value r.after,
      finish-order w a.after,
      started-append t.effects (r.effects ++ (a.effects ++ f.effects)),
      started-append r.effects (a.effects ++ f.effects),
      started-append a.effects f.effects,
      append-nil (started r.effects),
      started-append t.effects [],
    )

-- All that a run of the loop admits, in order, until it returns.
unfoldable pub admitted_in : Config → List (World × Command) → InternalState → List Alert
admitted_in cfg [] s = []
admitted_in cfg ((w, c) ∷ cs) s =
    let later = admitted_in cfg cs (turn cfg w c s).after in
    admitted cfg s c ++ (if (turn cfg w c s).value then [] else later)

Moves-sublist :
    (before new shown after later tail : List Alert)
    → Moves before new shown after
    → Sublist later (after ++ tail)
    → Sublist (shown ++ later) (before ++ (new ++ tail))
Moves-sublist before new shown after later tail (inl (none_shown, dropped)) h = rw none_shown (
    Sublist.trans (subst (λ l. Sublist later (l ++ tail)) dropped h)
      (Sublist.trans (sublist-append_right new tail) (sublist-append_right before (new ++ tail))))
Moves-sublist before new shown after later tail (inr e) h =
    rw (← append_assoc before new tail, e, append_assoc shown after tail)
      (Sublist.append (Sublist.refl shown) h)

loop-sublist :
    (cfg : Config) (cs : List (World × Command)) (s : InternalState)
    → Sublist (started (loop cfg cs s).effects) (s.alerts ++ admitted_in cfg cs s)
unfolding loop admitted_in
loop-sublist cfg [] s = nil-sublist _
loop-sublist cfg ((w, c) ∷ cs) s = elim (Bool-cases (turn cfg w c s).value) [
  | inl returned ↦
      rw (returned, started-append (turn cfg w c s).effects [])
        (Moves-sublist s.alerts (admitted cfg s c) (started (turn cfg w c s).effects)
          (turn cfg w c s).after.alerts [] [] (turn-Moves cfg w c s) (nil-sublist _))
  | inr goes_on ↦
      rw
        (
          goes_on,
          started-append (turn cfg w c s).effects (loop cfg cs (turn cfg w c s).after).effects,
        )
        (Moves-sublist s.alerts (admitted cfg s c) (started (turn cfg w c s).effects)
          (turn cfg w c s).after.alerts _ (admitted_in cfg cs (turn cfg w c s).after)
          (turn-Moves cfg w c s) (loop-sublist cfg cs (turn cfg w c s).after))
]

-- Over any run of the loop, the alerts that start are among those admitted, in the order in which
-- they were admitted, and each admitted alert starts at most once.
pub loop-initial-order :
    (cfg : Config) (cs : List (World × Command))
    → Sublist (started (loop cfg cs initial).effects) (admitted_in cfg cs initial)
unfolding initial
loop-initial-order cfg cs = loop-sublist cfg cs initial
