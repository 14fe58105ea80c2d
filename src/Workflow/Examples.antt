-- ===== src/Workflow/Examples.antt =====
-- A run of the worker: a signal ends the clock, a second one comes during the pass, and the context is
-- over in the pass that follows.
use atlas.Base.{true, false, List, [], ◌∷◌, Option, none, some, ◌≡◌, refl}
use atlas.Errors.{Error, sentinel, canceled, errors_is}
use atlas.Workflow.{
  show_news_cycle, run_clock, show_clock, Event, checked, done, refresh, clock_ended, painted,
  cycle_ended, stopping, cycling, returned, event, call, Worker, failure, start, react, step, Reach,
  started, stepped,
}
use atlas.Workflow.Passes.{
  Sound, Kept, owed, clock_on, news_on, clock_since, passes-Sound, signals-Kept, returned-quiet,
}

program : Unit {0}
unfolding failure errors_is start react step owed clock_on news_on clock_since
program = tt

abbrev follow : Worker → List Event → Option Worker
follow w [] = some w
follow w (e ∷ es) = elim (step true w e) [ none ↦ none | some v ↦ follow v es ]

abbrev stopped : Error
stopped = sentinel canceled

-- The run's events, in order, and its log, the newest first.
abbrev events : List Event
events =
    checked none
    ∷ refresh
    ∷ clock_ended (some stopped)
    ∷ refresh
    ∷ cycle_ended none
    ∷ checked none
    ∷ painted none
    ∷ checked none
    ∷ done stopped
    ∷ cycle_ended (some stopped)
    ∷ []

run_result :
    follow (start true) events
    ≡ some record {
      phase = returned (some stopped);
      log =
          event (cycle_ended (some stopped))
          ∷ event (done stopped)
          ∷ call show_news_cycle
          ∷ event (checked none)
          ∷ event (painted none)
          ∷ call show_clock
          ∷ event (checked none)
          ∷ event (cycle_ended none)
          ∷ event refresh
          ∷ call show_news_cycle
          ∷ event (clock_ended (some stopped))
          ∷ event refresh
          ∷ call run_clock
          ∷ event (checked none)
          ∷ [];
    }
unfolding program
run_result = refl

-- The worker with the clock stopping for the first signal.
abbrev signalled : Worker
signalled = record {
  phase = stopping none;
  log = event refresh ∷ call run_clock ∷ event (checked none) ∷ [];
}

signalled-Reach : Reach true signalled
unfolding program
signalled-Reach = stepped refresh (stepped (checked none) (started true) refl) refl

-- The first pass, which the second signal is to follow.
abbrev in_pass : Worker
in_pass = record {
  phase = cycling true;
  log = event refresh ∷ call show_news_cycle ∷ event (clock_ended none) ∷ signalled.log;
}

in_pass-Reach : Reach true in_pass
unfolding program
in_pass-Reach = stepped refresh (stepped (clock_ended none) signalled-Reach refl) refl

abbrev gone : Worker
gone = record {
  phase = returned (some stopped);
  log = event (cycle_ended none) ∷ event (done stopped) ∷ in_pass.log;
}

gone-Reach : Reach true gone
unfolding program
gone-Reach = stepped (cycle_ended none) (stepped (done stopped) in_pass-Reach refl) refl

passes-Sound_example : Sound true in_pass.log
passes-Sound_example = passes-Sound true in_pass in_pass-Reach

signals-Kept_example : Kept (cycling true) (owed in_pass.log)
signals-Kept_example = signals-Kept true in_pass in_pass-Reach

returned-quiet_example : (clock_on gone.log ≡ false) × (news_on gone.log ≡ false)
returned-quiet_example = returned-quiet true gone (some stopped) gone-Reach refl
