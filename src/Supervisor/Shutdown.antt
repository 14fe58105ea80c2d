-- ===== src/Supervisor/Shutdown.antt =====
-- The end of the loop: after a stop no worker starts, and the loop returns once the workers have.
use atlas.Base.{
  ◌≡◌, Bool, true, false, ◌&&◌, not, Option, none, List, [], ◌∷◌, ◌++◌, if◌then◌else◌, arith,
  append_assoc,
}
use atlas.Errors.{Error}
use atlas.Config.{Config}
use atlas.Supervisor.State.{
  InternalState, CommandKind, stop, news_stopped, alert_finished, Command, World, Effect,
}
use atlas.Supervisor.Workers.{stop_display, stop_news, cancel_all}
use atlas.Supervisor.Loop.{
  proceeding, reply, on_news_stopped, on_alert_finished, on_stop, handle, reconcile, reply_after,
  finish, turn, loop,
}
use atlas.Supervisor.State.{display_stop, stop_result}
use atlas.Supervisor.Invariant.{Inv}

-- A command that nobody answers and whose caller has not gone away.
abbrev pub message : CommandKind → Command
message k = record { kind = k; wants_reply = false; ctx_err = none }

stop_news-flags :
    (s : InternalState)
    → let t = (stop_news s).after in
      (t.shutting_down ≡ s.shutting_down)
      × (t.news_running ≡ s.news_running)
      × (t.alert_running ≡ s.alert_running)
      × (t.news_run ≡ s.news_run)
      × (t.alert_run ≡ s.alert_run)
      × (t.desired_on ≡ s.desired_on)
unfolding stop_news
stop_news-flags s = ground arith

pub cancel_all-flags :
    (b : Bool) (s : InternalState)
    → let t = (cancel_all b s).after in
      (t.shutting_down ≡ s.shutting_down)
      × (t.news_running ≡ s.news_running)
      × (t.alert_running ≡ s.alert_running)
      × (t.news_run ≡ s.news_run)
      × (t.alert_run ≡ s.alert_run)
      × (t.desired_on ≡ s.desired_on)
unfolding cancel_all
cancel_all-flags b s = ground (arith, stop_news-flags s)

-- A loop returns only when it is shutting down and neither worker runs.
pub turn-returns :
    (cfg : Config) (w : World) (c : Command) (s : InternalState)
    → (turn cfg w c s).value ≡ true
    → let t = (turn cfg w c s).after in
      (t.shutting_down ≡ true) × (t.news_running ≡ false) × (t.alert_running ≡ false)
unfolding turn reply finish stop_display
turn-returns cfg w c s h = ground arith

abbrev pub stop_command : Bool → Command
stop_command wants = record { kind = stop; wants_reply = wants; ctx_err = none }

on_stop-flags :
    (wants : Bool) (s : InternalState)
    → let o = on_stop wants s in
      (o.value ≡ proceeding)
      × (o.after.shutting_down ≡ true)
      × (o.after.news_running ≡ s.news_running)
      × (o.after.alert_running ≡ s.alert_running)
      × (o.after.news_run ≡ s.news_run)
      × (o.after.alert_run ≡ s.alert_run)
unfolding on_stop reply
on_stop-flags wants s = grind (arith, cancel_all-flags)

stop-turn :
    (cfg : Config) (w : World) (wants : Bool) (s : InternalState)
    → let o = turn cfg w (stop_command wants) s in
      (o.value ≡ not s.news_running && not s.alert_running)
      × (o.after.shutting_down ≡ true)
      × (o.after.news_running ≡ s.news_running)
      × (o.after.alert_running ≡ s.alert_running)
      × (o.after.news_run ≡ s.news_run)
      × (o.after.alert_run ≡ s.alert_run)
unfolding turn handle reconcile reply_after finish stop_display
stop-turn cfg w wants s = ground (arith, on_stop-flags wants s)

news_stopped-ends :
    (cfg : Config) (w : World) (e : Option Error) (s : InternalState)
    → s.shutting_down ≡ true
    → s.alert_running ≡ false
    → (turn cfg w (message (news_stopped s.news_run e)) s).value ≡ true
unfolding turn handle on_news_stopped reconcile reply_after finish stop_display
news_stopped-ends cfg w e s d a = ground arith

alert_finished-ends :
    (cfg : Config) (w : World) (e : Option Error) (s : InternalState)
    → s.shutting_down ≡ true
    → s.news_running ≡ false
    → (turn cfg w (message (alert_finished s.alert_run e)) s).value ≡ true
unfolding turn handle on_alert_finished reconcile reply_after finish stop_display
alert_finished-ends cfg w e s d n = ground arith

-- The report of the one worker that runs, if any: it ends with `e`.
abbrev pub reports : World → Option Error → InternalState → List (World × Command)
reports w e s =
    if s.news_running
    then (w, message (news_stopped s.news_run e)) ∷ []
    else if s.alert_running
    then (w, message (alert_finished s.alert_run e)) ∷ []
    else []

-- A stop that the loop takes ends it: at once if no worker runs, otherwise when the one worker
-- that runs reports its end, with whatever error. The invariant excludes a second worker.
pub stop-ends :
    (cfg : Config) (w w' : World) (wants : Bool) (e : Option Error) (s : InternalState)
    → Inv cfg.alert_queue_capacity s
    → (loop cfg ((w, stop_command wants) ∷ reports w' e s) s).value ≡ true
unfolding loop
stop-ends cfg w w' wants e s v =
    let t = (turn cfg w (stop_command wants) s).after in
    ground
      (arith, stop-turn cfg w wants s, news_stopped-ends cfg w' e t, alert_finished-ends cfg w' e t)

stop_display-asks :
    (w : World) (s : InternalState)
    → ((stop_display w s).effects ≡ display_stop ∷ []) × ((stop_display w s).value ≡ w.stop_error)
unfolding stop_display
stop_display-asks w s = ground arith

finish-effects :
    (w : World) (s : InternalState)
    → (finish w s).value ≡ true
    → (finish w s).effects ≡ display_stop ∷ stop_result w.stop_error ∷ []
unfolding finish
finish-effects w s h = ground (arith, stop_display-asks w s)

-- When the loop returns it has stopped the display last, and reports how that went.
pub turn-stops_display :
    (cfg : Config) (w : World) (c : Command) (s : InternalState)
    → (turn cfg w c s).value ≡ true
    → (before : List Effect) × ((turn cfg w c s).effects
        ≡ before ++ (display_stop ∷ stop_result w.stop_error ∷ []))
unfolding turn reply
turn-stops_display cfg w c s h =
    let t = handle cfg w c.wants_reply c.kind s in
    let r = reconcile cfg w t.after in
    let a = reply_after c.wants_reply c.kind r.value r.after in
    let end = display_stop ∷ stop_result w.stop_error ∷ [] in
    (
      t.effects ++ (r.effects ++ a.effects),
      ground (
        arith,
        finish-effects w a.after,
        append_assoc t.effects (r.effects ++ a.effects) end,
        append_assoc r.effects a.effects end,
      ),
    )
