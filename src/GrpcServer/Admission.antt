-- ===== src/GrpcServer/Admission.antt =====
-- Which alerts internal/grpcserver/server.go hands to the supervisor, and what it answers.
use atlas.Base.{
  ℕ, ◌≤◌, ◌≡◌, refl, sym, true, false, length, Text, bytes, trim_space, is_empty, Option, none,
  some, ◌⊎◌, inl, inr, arith,
}
use atlas.Errors.{Error}
use atlas.Alert.{Alert, Severity, info, warning, critical, Time}
use atlas.GrpcServer.{valid_string, code_invalid_argument, Status, map_error}
use atlas.GrpcServer.Alerts.{
  AlertSeverity, unspecified, severity_info, severity_warning, severity_critical, other,
  AlertRequest, AlertAck, severity_of, refusal, answer_of, add_alert, invalid, alert_command_state,
}

-- An alert that the supervisor may be given.
pub record ValidAlert (max_bytes : ℕ) (a : Alert) : Type 0 where
  pub color : (length a.color ≤ 64) × (valid_string a.color ≡ true)
  pub message :
      (is_empty a.message ≡ false)
      × (valid_string a.message ≡ true)
      × (length a.message ≤ max_bytes)

unrefused :
    (max_bytes : ℕ) (r : AlertRequest)
    → refusal max_bytes (some r) ≡ none
    → ((length (trim_space r.color) ≤ 64) × (valid_string (trim_space r.color) ≡ true))
      × (is_empty (trim_space r.message) ≡ false)
      × (valid_string (trim_space r.message) ≡ true)
      × (length (trim_space r.message) ≤ max_bytes)
unfolding refusal
unrefused max_bytes r h = ground (arith, h)

-- The severities that a request means; without one it means a piece of information.
abbrev pub Means : AlertSeverity → Severity → Type 0
Means unspecified s = s ≡ info
Means severity_info s = s ≡ info
Means severity_warning s = s ≡ warning
Means severity_critical s = s ≡ critical
Means other s = ⊥

-- The alert of a request that came under an ID at a time.
pub record AlertOf (r : AlertRequest) (id : Text) (now : Time) (a : Alert) : Type 0 where
  pub operation_id : a.operation_id ≡ id
  pub color : a.color ≡ trim_space r.color
  pub message : a.message ≡ trim_space r.message
  pub severity : Means r.severity a.severity
  pub received_at : a.received_at ≡ now

-- A request that may be refused: there is none, or no valid alert can be made of it.
abbrev pub Faulty : ℕ → Text → Time → Option AlertRequest → Type 0
Faulty max_bytes id now none = Unit
Faulty max_bytes id now (some r) = ¬ ((a : Alert) × AlertOf r id now a × ValidAlert max_bytes a)

-- The answer that passes on the supervisor's.
abbrev pub Answers : Text → Text ⊎ Error → AlertAck ⊎ Status → Type 0
Answers id (inl state) answer =
    answer
    ≡ inl (record { operation_id = id; state = state; command_state = alert_command_state state })
Answers id (inr e) answer = answer ≡ inr (map_error e)

answer_of-Answers : (id : Text) (o : Text ⊎ Error) → Answers id o (answer_of id o)
answer_of-Answers id (inl state) = refl
answer_of-Answers id (inr e) = refl

-- Either the request is at fault and the supervisor is given nothing, or it is given the valid alert
-- of the request, and the answer is its own.
abbrev pub AdmitsOnlyValid :
    ℕ
    → Text
    → Time
    → (Alert → Text ⊎ Error)
    → Option AlertRequest
    → (AlertAck ⊎ Status) × Option Alert
    → Type 0
AdmitsOnlyValid max_bytes id now admit request (answer, given) =
    ((why : Text) × (given ≡ none)
      × (answer ≡ inr (record { code = code_invalid_argument; message = why }))
      × Faulty max_bytes id now request)
    ⊎ ((r : AlertRequest) × (a : Alert) × (request ≡ some r)
        × (given ≡ some a)
        × AlertOf r id now a
        × ValidAlert max_bytes a
        × Answers id (admit a) answer)

refused :
    (max_bytes : ℕ) (r : AlertRequest) (why : Text)
    → refusal max_bytes (some r) ≡ some why
    → length (trim_space r.color) ≤ 64
    → valid_string (trim_space r.color) ≡ true
    → is_empty (trim_space r.message) ≡ false
    → valid_string (trim_space r.message) ≡ true
    → length (trim_space r.message) ≤ max_bytes
    → ⊥
unfolding refusal
refused max_bytes r why h c1 c2 m1 m2 m3 = ground arith

refused-Faulty :
    (max_bytes : ℕ) (id : Text) (now : Time) (r : AlertRequest) (why : Text)
    → refusal max_bytes (some r) ≡ some why
    → Faulty max_bytes id now (some r)
refused-Faulty max_bytes id now r why h (a, of, v) =
    refused max_bytes r why h (rw (sym of.color) v.color.0) (rw (sym of.color) v.color.1)
      (rw (sym of.message) v.message.0) (rw (sym of.message) v.message.1)
      (rw (sym of.message) v.message.2)

severity_of-Means : (v : AlertSeverity) (s : Severity) → severity_of v ≡ some s → Means v s
unfolding severity_of
severity_of-Means unspecified s h = ground (arith, h)
severity_of-Means severity_info s h = ground (arith, h)
severity_of-Means severity_warning s h = ground (arith, h)
severity_of-Means severity_critical s h = ground (arith, h)
severity_of-Means other s h = ground (arith, h)

no_severity : (v : AlertSeverity) (s : Severity) → severity_of v ≡ none → Means v s → ⊥
unfolding severity_of
no_severity unspecified s h m = ground (arith, h)
no_severity severity_info s h m = ground (arith, h)
no_severity severity_warning s h m = ground (arith, h)
no_severity severity_critical s h m = ground (arith, h)
no_severity other s h m = m

admitted :
    (max_bytes : ℕ) (id : Text) (now : Time) (admit : Alert → Text ⊎ Error) (r : AlertRequest)
    → refusal max_bytes (some r) ≡ none
    → (s : Option Severity) → severity_of r.severity ≡ s
    → let whole : (AlertAck ⊎ Status) × Option Alert = elim s [
      | none ↦ (inr (invalid (bytes "alert severity is invalid")), none)
      | some severity ↦
          let a : Alert = record {
            operation_id = id;
            color = trim_space r.color;
            message = trim_space r.message;
            severity = severity;
            received_at = now;
          } in
          (answer_of id (admit a), some a)
    ] in
      AdmitsOnlyValid max_bytes id now admit (some r) whole
admitted max_bytes id now admit r h none k = inl (
  bytes "alert severity is invalid",
  refl,
  refl,
  λ (a, of, v). no_severity r.severity a.severity k of.severity,
)
admitted max_bytes id now admit r h (some severity) k =
    let sound = unrefused max_bytes r h in
    inr (
      r,
      _,
      refl,
      refl,
      record {
        operation_id = refl;
        color = refl;
        message = refl;
        severity = severity_of-Means r.severity severity k;
        received_at = refl;
      },
      record { color = sound.0; message = (sound.1, sound.2, sound.3) },
      answer_of-Answers id _,
    )

checked :
    (max_bytes : ℕ) (id : Text) (now : Time) (admit : Alert → Text ⊎ Error) (r : AlertRequest)
    → (o : Option Text) → refusal max_bytes (some r) ≡ o
    → let whole : (AlertAck ⊎ Status) × Option Alert = elim o [
      | some why ↦ (inr (invalid why), none)
      | none ↦ elim (severity_of r.severity) [
        | none ↦ (inr (invalid (bytes "alert severity is invalid")), none)
        | some severity ↦
            let a : Alert = record {
              operation_id = id;
              color = trim_space r.color;
              message = trim_space r.message;
              severity = severity;
              received_at = now;
            } in
            (answer_of id (admit a), some a)
      ]
    ] in
      AdmitsOnlyValid max_bytes id now admit (some r) whole
checked max_bytes id now admit r (some why) h =
    inl (why, refl, refl, refused-Faulty max_bytes id now r why h)
checked max_bytes id now admit r none h =
    admitted max_bytes id now admit r h (severity_of r.severity) refl

no_request :
    (max_bytes : ℕ) (id : Text) (now : Time) (admit : Alert → Text ⊎ Error)
    → AdmitsOnlyValid max_bytes id now admit none (add_alert max_bytes id now admit none)
unfolding add_alert refusal
no_request max_bytes id now admit = inl (bytes "alert is required", refl, refl, tt)

-- `AddAlert` hands the supervisor at most one alert. It is the alert of the request: its color and
-- message with the white space around them cut off, its severity, the fresh operation ID and the
-- time; its color and message are valid UTF-8 and within their limits, and the message is not empty.
-- The answer is then the supervisor's, under that ID. Otherwise the answer is an invalid argument,
-- and no valid alert can be made of the request.
pub add_alert-admits :
    (max_bytes : ℕ) (id : Text) (now : Time) (admit : Alert → Text ⊎ Error)
    (request : Option AlertRequest)
    → AdmitsOnlyValid max_bytes id now admit request (add_alert max_bytes id now admit request)
unfolding add_alert
add_alert-admits max_bytes id now admit none = no_request max_bytes id now admit
add_alert-admits max_bytes id now admit (some r) =
    checked max_bytes id now admit r (refusal max_bytes (some r)) refl
