-- ===== src/Config/Validity.antt =====
-- What a configuration satisfies when `Validate` of internal/config/config.go accepts it.
use atlas.Base.{
  div_ℤ, ltb_ℤ, bytes, ℕ, zero, suc, ◌*◌, ◌/◌, ◌%◌, ◌<◌, ◌≡◌, refl, Bool, true, false, not, ◌&&◌,
  ◌||◌, Text, ℤ, pos, negsuc, ◌≤ℤ◌, ◌<ℤ◌, Option, none, some, is_empty, arith,
}
use atlas.Errors.{Error, Result, ok, err, panic, ◌>>=◌, ◌>>◌, fail_if, wrapped}
use atlas.Config.{Config, minute, hour, validate, rem_ℤ, outside, not_positive, equal_ℤ, is_zero}

abbrev pub Within : ℤ → ℕ → Type 0
Within v top = (pos 0 ≤ℤ v) × (v ≤ℤ pos top)

pub record IsValid (load_location : Text → Option Error) (c : Config) : Type 0 where
  pub zone_known : load_location c.timezone ≡ none
  pub start_hour : Within c.start_hour 23
  pub start_minute : Within c.start_minute 59
  pub stop_hour : Within c.stop_hour 23
  pub stop_minute : Within c.stop_minute 59
  pub differ : ¬ ((c.start_hour ≡ c.stop_hour) × (c.start_minute ≡ c.stop_minute))
  pub passes : (k : ℕ) × (c.news_refresh_interval ≡ pos (k * minute)) × (0 < k) × (60 % k ≡ 0)
  pub alert_duration : pos 0 <ℤ c.alert_display_duration
  pub stop_timeout : pos 0 <ℤ c.worker_stop_timeout
  pub operation_timeout : pos 0 <ℤ c.operation_timeout
  pub shutdown_timeout : pos 0 <ℤ c.grpc_shutdown_timeout
  pub retries : (pos 0 <ℤ c.startup_retry_count) × (c.startup_retry_count ≤ℤ pos 10)
  pub retry_delay : pos 0 <ℤ c.startup_retry_delay
  pub alert_room : pos 0 <ℤ c.alert_queue_capacity
  pub command_room : pos 0 <ℤ c.command_queue_capacity
  pub message_room : pos 0 <ℤ c.alert_message_max_bytes
  pub address : is_empty c.grpc_listen_address ≡ false

abbrev pub is_err : Result (Unit {0}) → Bool
is_err (ok x) = false
is_err (err e) = true
is_err panic = false

-- A chain of checks that does not report an error has passed its first.
passed :
    (b : Bool) (e : Error) (m : Result (Unit {0})) {r : Result (Unit {0})}
    → is_err r ≡ false
    → (fail_if b e >> m) ≡ r
    → (b ≡ false) × (m ≡ r)
passed true e m n h = cc
passed false e m n h = (refl, h)

passed_last :
    (b : Bool) (e : Error) {r : Result (Unit {0})}
    → is_err r ≡ false
    → fail_if b e ≡ r
    → (b ≡ false) × (ok tt ≡ r)
passed_last true e n h = cc
passed_last false e n h = (refl, h)

known :
    (zone : Option Error) (m : Result (Unit {0})) {r : Result (Unit {0})}
    → is_err r ≡ false
    → (elim zone [ none ↦ ok tt | some e ↦ err (wrapped (bytes "timezone") e) ] >> m) ≡ r
    → (zone ≡ none) × (m ≡ r)
known none m n h = (refl, h)
known (some e) m n h = cc

divides_hour :
    (q : ℕ) (e : Error) (m : Result (Unit {0})) {r : Result (Unit {0})}
    → is_err r ≡ false
    → 0 < q
    → (rem_ℤ (pos 60) (pos q) >>= λ left. fail_if (not (is_zero left)) e >> m) ≡ r
    → (60 % q ≡ 0) × (m ≡ r)
unfolding rem_ℤ
divides_hour zero e m n lt h = absurd (omega arith)
divides_hour (suc q) e m n lt h =
    let s = passed (not (is_zero (pos (60 % suc q)))) e m n h in (grind (arith, s.0), s.1)

passes_of :
    (i : ℤ) (e e' : Error) (m : Result (Unit {0})) {r : Result (Unit {0})}
    → is_err r ≡ false
    → not_positive i ≡ false
    → (rem_ℤ i (pos minute) >>= λ rest.
        fail_if (not (is_zero rest)) e
        >> (rem_ℤ (pos 60) (div_ℤ i minute) >>= λ left. fail_if (not (is_zero left)) e' >> m))
      ≡ r
    → ((k : ℕ) × (i ≡ pos (k * minute)) × (0 < k) × (60 % k ≡ 0)) × (m ≡ r)
unfolding rem_ℤ
passes_of (negsuc a) e e' m n p h = absurd (ground arith)
passes_of (pos a) e e' m n p h =
    let s = passed (not (is_zero (pos (a % minute)))) e _ n h in
    let whole : a % minute ≡ 0 = grind (arith, s.0) in
    let same_number : a ≡ a / minute * minute = omega arith in
    let lt : 0 < a / minute = ground arith in
    let t = divides_hour (a / minute) e' m n lt s.1 in
    ((a / minute, (λ i. pos (same_number i)), lt, t.0), t.1)

ranges_of :
    (v w : ℤ) (top : ℕ) → (outside v top || outside w top) ≡ false → Within v top × Within w top
ranges_of v w top h = ground arith

positive_of2 : (v w : ℤ) → (not_positive v || not_positive w) ≡ false → (pos 0 <ℤ v) × (pos 0 <ℤ w)
positive_of2 v w h = ground arith

positive_of3 :
    (u v w : ℤ)
    → (not_positive u || not_positive v || not_positive w) ≡ false
    → (pos 0 <ℤ u) × (pos 0 <ℤ v) × (pos 0 <ℤ w)
positive_of3 u v w h = ground arith

at_most_of : (v : ℤ) (top : ℕ) → ltb_ℤ (pos top) v ≡ false → v ≤ℤ pos top
at_most_of v top h = ground arith

differ_of : (a b c d : ℤ) → (equal_ℤ a b && equal_ℤ c d) ≡ false → ¬ ((a ≡ b) × (c ≡ d))
differ_of a b c d h e = ground (arith, e)

pub accepted :
    (load : Text → Option Error) (c : Config) {r : Result (Unit {0})}
    → is_err r ≡ false
    → validate load c ≡ r
    → IsValid load c × (ok tt ≡ r)
unfolding validate
accepted load c {r} n h =
    let s0 = known (load c.timezone) _ n h in
    let s1 = passed (outside c.start_hour 23 || outside c.stop_hour 23) _ _ n s0.1 in
    let s2 = passed (outside c.start_minute 59 || outside c.stop_minute 59) _ _ n s1.1 in
    let s3 =
      passed (equal_ℤ c.start_hour c.stop_hour && equal_ℤ c.start_minute c.stop_minute) _ _ n
        s2.1 in
    let s4 =
      passed (not_positive c.news_refresh_interval || not_positive c.alert_display_duration) _ _ n
        s3.1 in
    let s5 = passed (ltb_ℤ (pos hour) c.news_refresh_interval) _ _ n s4.1 in
    let p : not_positive c.news_refresh_interval ≡ false = ground (arith, s4) in
    let s6 = passes_of c.news_refresh_interval _ _ _ n p s5.1 in
    let s7 =
      passed
        (not_positive c.worker_stop_timeout
          || not_positive c.operation_timeout
          || not_positive c.grpc_shutdown_timeout)
        _ _ n s6.1 in
    let s8 =
      passed (not_positive c.startup_retry_count || not_positive c.startup_retry_delay) _ _ n
        s7.1 in
    let s9 = passed (ltb_ℤ (pos 10) c.startup_retry_count) _ _ n s8.1 in
    let s10 =
      passed
        (not_positive c.alert_queue_capacity
          || not_positive c.command_queue_capacity
          || not_positive c.alert_message_max_bytes)
        _ _ n s9.1 in
    let s11 = passed_last (is_empty c.grpc_listen_address) _ n s10.1 in
    let hours = ranges_of c.start_hour c.stop_hour 23 s1.0 in
    let minutes = ranges_of c.start_minute c.stop_minute 59 s2.0 in
    let timeouts =
      positive_of3 c.worker_stop_timeout c.operation_timeout c.grpc_shutdown_timeout s7.0 in
    let retries = positive_of2 c.startup_retry_count c.startup_retry_delay s8.0 in
    let rooms =
      positive_of3 c.alert_queue_capacity c.command_queue_capacity c.alert_message_max_bytes
        s10.0 in
    let durations = positive_of2 c.news_refresh_interval c.alert_display_duration s4.0 in
    (
      record {
        zone_known = s0.0;
        start_hour = hours.0;
        stop_hour = hours.1;
        start_minute = minutes.0;
        stop_minute = minutes.1;
        differ = differ_of c.start_hour c.stop_hour c.start_minute c.stop_minute s3.0;
        passes = s6.0;
        alert_duration = durations.1;
        stop_timeout = timeouts.0;
        operation_timeout = timeouts.1;
        shutdown_timeout = timeouts.2;
        retries = (retries.0, at_most_of c.startup_retry_count 10 s9.0);
        retry_delay = retries.1;
        alert_room = rooms.0;
        command_room = rooms.1;
        message_room = rooms.2;
        address = s11.0;
      },
      s11.1,
    )
