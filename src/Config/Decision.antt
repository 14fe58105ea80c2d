-- ===== src/Config/Decision.antt =====
-- `Validate` of internal/config/config.go accepts exactly the valid configurations.
use atlas.Base.{
  div_ℤ, ltb_ℤ, ℕ, zero, suc, ◌*◌, ◌/◌, ◌%◌, ◌<◌, ◌≡◌, refl, ◌⊎◌, inl, inr, true, false, ◌&&◌, ◌||◌,
  Text, ℤ, pos, negsuc, ◌≤ℤ◌, ◌<ℤ◌, Option, arith,
}
use atlas.Errors.{Error, Result, ok, err, panic}
use atlas.Config.{Config, minute, hour, validate, rem_ℤ, outside, not_positive, equal_ℤ}
use atlas.Config.Validity.{Within, IsValid, accepted}

divisor_le : (k : ℕ) → 0 < k → 60 % k ≡ 0 → k < 61
divisor_le k h d = grind arith

whole_minutes : (k : ℕ) → rem_ℤ (pos (k * minute)) (pos minute) ≡ ok (pos 0)
unfolding rem_ℤ
whole_minutes k = let exact : k * minute % minute ≡ 0 = omega arith in (λ i. ok (pos (exact i)))

divided : (k : ℕ) → 0 < k → 60 % k ≡ 0 → rem_ℤ (pos 60) (pos k) ≡ ok (pos 0)
unfolding rem_ℤ
divided zero lt d = absurd (omega arith)
divided (suc k) lt d = λ i. ok (pos (d i))

whole_hour :
    (k : ℕ) → 0 < k → 60 % k ≡ 0 → rem_ℤ (pos 60) (div_ℤ (pos (k * minute)) minute) ≡ ok (pos 0)
unfolding rem_ℤ
whole_hour k lt d =
    let whole : k * minute / minute ≡ k = omega arith in
    let pass = divided k lt d in (rw (whole, pass))

inside_of :
    (v w : ℤ) (top : ℕ) → Within v top → Within w top → (outside v top || outside w top) ≡ false
inside_of v w top h k = ground arith

equal_of : (a b : ℤ) → equal_ℤ a b ≡ true → a ≡ b
equal_of (pos a) (pos b) h = let e : a ≡ b = ground arith in (λ i. pos (e i))
equal_of (pos a) (negsuc b) h = absurd (ground arith)
equal_of (negsuc a) (pos b) h = absurd (ground arith)
equal_of (negsuc a) (negsuc b) h = let e : a ≡ b = ground arith in (λ i. negsuc (e i))

apart_of : (a b c d : ℤ) → ¬ ((a ≡ b) × (c ≡ d)) → (equal_ℤ a b && equal_ℤ c d) ≡ false
apart_of a b c d n = grind (arith, equal_of a b, equal_of c d, n)

not_positive_of2 : (v w : ℤ) → pos 0 <ℤ v → pos 0 <ℤ w → (not_positive v || not_positive w) ≡ false
not_positive_of2 v w h k = ground arith

not_positive_of3 :
    (u v w : ℤ)
    → pos 0 <ℤ u
    → pos 0 <ℤ v
    → pos 0 <ℤ w
    → (not_positive u || not_positive v || not_positive w) ≡ false
not_positive_of3 u v w g h k = ground arith

not_above_of : (v : ℤ) (top : ℕ) → v ≤ℤ pos top → ltb_ℤ (pos top) v ≡ false
not_above_of v top h = ground arith

within_hour : (k : ℕ) → 0 < k → 60 % k ≡ 0 → pos (k * minute) ≤ℤ pos hour
within_hour k lt d = let small = divisor_le k lt d in (omega arith)

complete : (load : Text → Option Error) (c : Config) → IsValid load c → validate load c ≡ ok tt
unfolding validate
complete load c v =
    let k = v.passes.0 in
    let i = v.passes.1 in
    let lt = v.passes.2 in
    let d = v.passes.3 in
    let h1 = inside_of c.start_hour c.stop_hour 23 v.start_hour v.stop_hour in
    let h2 = inside_of c.start_minute c.stop_minute 59 v.start_minute v.stop_minute in
    let h3 = apart_of c.start_hour c.stop_hour c.start_minute c.stop_minute v.differ in
    let positive : pos 0 <ℤ pos (k * minute) = omega (arith, lt) in
    let h4 =
      not_positive_of2 (pos (k * minute)) c.alert_display_duration positive v.alert_duration in
    let h5 = not_above_of (pos (k * minute)) hour (within_hour k lt d) in
    let h6 = whole_minutes k in
    let h7 = whole_hour k lt d in
    let h8 =
      not_positive_of3 c.worker_stop_timeout c.operation_timeout c.grpc_shutdown_timeout
        v.stop_timeout v.operation_timeout v.shutdown_timeout in
    let h9 =
      not_positive_of2 c.startup_retry_count c.startup_retry_delay v.retries.0 v.retry_delay in
    let h10 = not_above_of c.startup_retry_count 10 v.retries.1 in
    let h11 =
      not_positive_of3 c.alert_queue_capacity c.command_queue_capacity c.alert_message_max_bytes
        v.alert_room v.command_room v.message_room in
    rw (v.zone_known, h1, h2, h3, i, h4, h5, h6, h7, h8, h9, h10, h11, v.address)

decided :
    (load : Text → Option Error) (c : Config) (r : Result (Unit {0}))
    → validate load c ≡ r
    → ((validate load c ≡ ok tt) × IsValid load c)
      ⊎ ((e : Error) × (validate load c ≡ err e) × ¬ IsValid load c)
decided load c (ok tt) h = inl (h, (accepted load c refl h).0)
decided load c (err e) h = inr (e, h, λ v. let good = complete load c v in (cc))
decided load c panic h = let (v, e) = accepted load c refl h in absurd (cc)

-- `Validate` accepts a configuration exactly if it is valid, reports an error for every other, and
-- never divides by zero.
pub validate-decides :
    (load : Text → Option Error) (c : Config)
    → ((validate load c ≡ ok tt) × IsValid load c)
      ⊎ ((e : Error) × (validate load c ≡ err e) × ¬ IsValid load c)
validate-decides load c = decided load c (validate load c) refl
