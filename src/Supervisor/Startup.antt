-- ===== src/Supervisor/Startup.antt =====
-- The attempts to start the display, and the delays between attempts to restart the news worker.
use atlas.Base.{
  ℕ, zero, suc, ◌+◌, ◌-◌, ◌*◌, ◌≤◌, ◌<◌, min, ◌≡◌, ◌≢◌, refl, Bool, true, false, Option, none, List,
  pos_part, arith, Option-cases, inl, inr, append-nil, ltb,
}
use atlas.Errors.{Error}
use atlas.Config.{Config, second, minute}
use atlas.Supervisor.State.{failed, InternalState, World, Effect, display_start}
use atlas.Supervisor.Workers.{start_attempts, start_display, retry_delay}
use atlas.Supervisor.Effects.{count_if}

abbrev is_start : Effect → Bool
is_start (display_start i) = true
is_start _ = false

-- How often the display is asked to start.
abbrev pub starts : List Effect → ℕ
starts = count_if is_start

-- No attempt up to the n-th from `i` succeeds, and every wait after one runs its time.
abbrev pub Fails : World → ℕ → ℕ → Type 0
Fails w i zero = Unit {0}
Fails w i (suc n) = (w.start_error i ≢ none) × (w.waited i ≡ true) × Fails w (i + 1) n

start_attempts-first :
    (cfg : Config) (w : World) (k n i : ℕ) (e : Option Error)
    → k < n
    → Fails w i k
    → w.start_error (i + k) ≡ none
    → let o = start_attempts cfg w n i e in (o.0 ≡ none) × (starts o.1 ≡ k + 1)
unfolding start_attempts
start_attempts-first cfg w k zero i e lt f h = absurd (omega arith)
start_attempts-first cfg w zero (suc n) i e lt f h =
    let same : i + 0 ≡ i = omega arith in
    let h' : w.start_error i ≡ none = rw same at h in ground arith
start_attempts-first cfg w (suc k) (suc n) i e lt f h =
    let same : i + suc k ≡ i + 1 + k = omega arith in
    let h' : w.start_error (i + 1 + k) ≡ none = rw same at h in
    elim (Option-cases (w.start_error i)) [
      | inl e' ↦ absurd (f.0 e')
      | inr (x, e') ↦
          let ih = start_attempts-first cfg w k n (i + 1) (w.start_error i) (omega arith) f.2 h' in
          ground (arith, ih)
    ]

start_attempts-give_up :
    (cfg : Config) (w : World) (n i : ℕ) (e : Option Error)
    → Fails w i n
    → let o = start_attempts cfg w n i e in (o.0 ≢ none) × (starts o.1 ≡ n)
unfolding start_attempts
start_attempts-give_up cfg w zero i e f = (λ h. cc, refl)
start_attempts-give_up cfg w (suc n) i e f = elim (Option-cases (w.start_error i)) [
  | inl e' ↦ absurd (f.0 e')
  | inr (x, e') ↦
      let ih = start_attempts-give_up cfg w n (i + 1) (w.start_error i) f.2 in ground (arith, ih)
]

-- Where the first k attempts fail, with every wait after them run to its end, and the next one,
-- within the configured number, succeeds: the display is asked to start k + 1 times, runs, and no
-- error is reported.
pub start_display-first_success :
    (cfg : Config) (w : World) (k : ℕ) (s : InternalState)
    → k < pos_part cfg.startup_retry_count
    → Fails w 0 k
    → w.start_error k ≡ none
    → let o = start_display cfg w s in
      (o.value ≡ none) × (o.after.display_running ≡ true) × (starts o.effects ≡ k + 1)
unfolding start_display
start_display-first_success cfg w k s lt f h =
    let n = pos_part cfg.startup_retry_count in
    let same : 0 + k ≡ k = omega arith in
    let first = start_attempts-first cfg w k n 0 none lt f (rw same h) in
    ground (arith, first, append-nil (start_attempts cfg w n 0 none).1)

-- Where every configured attempt fails, with every wait after them run to its end, the display is
-- asked to start once for each, the state is failed, and an error is reported.
pub start_display-gives_up :
    (cfg : Config) (w : World) (s : InternalState)
    → Fails w 0 (pos_part cfg.startup_retry_count)
    → let o = start_display cfg w s in
      (o.value ≢ none)
      × (o.after.lifecycle ≡ failed)
      × (starts o.effects ≡ pos_part cfg.startup_retry_count)
unfolding start_display
start_display-gives_up cfg w s f =
    let n = pos_part cfg.startup_retry_count in
    let all = start_attempts-give_up cfg w n 0 none f in
    ground (arith, all, append-nil (start_attempts cfg w n 0 none).1)

retry_delay-large : (failures : ℕ) → 7 ≤ failures → retry_delay failures ≡ minute
unfolding retry_delay
retry_delay-large failures h =
    let six : min (failures - 1) 6 ≡ 6 = omega arith in
    let some_failures : ltb failures 1 ≡ false = ground arith in rw (some_failures, six) refl

abbrev BacksOff : ℕ → Type 0
BacksOff failures =
    (second ≤ retry_delay failures)
    × (retry_delay failures ≤ minute)
    × (retry_delay (failures + 2) ≡ min (2 * retry_delay (failures + 1)) minute)

BacksOff-large : (failures : ℕ) → 7 ≤ failures → BacksOff failures
BacksOff-large failures h = ground (
  arith,
  retry_delay-large failures,
  retry_delay-large (failures + 1),
  retry_delay-large (failures + 2),
)

-- The delay before a failed news worker is started again is at least a second and at most a
-- minute, and after the first failure it doubles with each further one until it reaches a minute.
pub retry_delay-backs_off :
    (failures : ℕ)
    → (second ≤ retry_delay failures)
      × (retry_delay failures ≤ minute)
      × (retry_delay (failures + 2) ≡ min (2 * retry_delay (failures + 1)) minute)
unfolding retry_delay
retry_delay-backs_off zero = ground arith
retry_delay-backs_off (suc zero) = ground arith
retry_delay-backs_off (suc (suc zero)) = ground arith
retry_delay-backs_off (suc (suc (suc zero))) = ground arith
retry_delay-backs_off (suc (suc (suc (suc zero)))) = ground arith
retry_delay-backs_off (suc (suc (suc (suc (suc zero))))) = ground arith
retry_delay-backs_off (suc (suc (suc (suc (suc (suc zero)))))) = ground arith
retry_delay-backs_off (suc (suc (suc (suc (suc (suc (suc n))))))) = BacksOff-large _ (omega arith)
