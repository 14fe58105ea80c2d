-- ===== src/GrpcServer/Alerts.antt =====
-- internal/grpcserver/server.go: `AddAlert`, and what its answer says.
use atlas.Base.{
  ℕ, not, ltb, ◌++◌, length, Text, bytes, text_eq, trim_space, itoa, is_empty, Option, none, some,
  ◌⊎◌, inl, inr, if◌then◌else◌,
}
use atlas.Errors.{Error}
use atlas.Alert.{Alert, Severity, info, warning, critical, Time}
use atlas.GrpcServer.{valid_string, code_invalid_argument, Status, map_error}

-- The severity of a request; `other` is any number that the protocol does not name.
pub data AlertSeverity : Type 0 where
  unspecified severity_info severity_warning severity_critical other : AlertSeverity

pub record AlertRequest : Type 0 where
  pub color : Text
  pub message : Text
  pub severity : AlertSeverity

pub data CommandState : Type 0 where
  command_unspecified command_displaying command_queued command_stored : CommandState

-- `alertCommandState`
unfoldable pub alert_command_state : Text → CommandState
unfolding bytes text_eq
alert_command_state value =
    if text_eq value (bytes "displaying")
    then command_displaying
    else if text_eq value (bytes "queued")
    then command_queued
    else command_unspecified

unfoldable pub severity_of : AlertSeverity → Option Severity
severity_of unspecified = some info
severity_of severity_info = some info
severity_of severity_warning = some warning
severity_of severity_critical = some critical
severity_of other = none

pub record AlertAck : Type 0 where
  pub operation_id : Text
  pub state : Text
  pub command_state : CommandState

abbrev pub invalid : Text → Status
invalid m = record { code = code_invalid_argument; message = m }

-- The checks of an alert, in their order: the first that fails, if any does.
unfoldable pub refusal : ℕ → Option AlertRequest → Option Text
unfolding bytes trim_space valid_string itoa
refusal max_bytes none = some (bytes "alert is required")
refusal max_bytes (some r) =
    if ltb 64 (length (trim_space r.color))
    then some (bytes "alert color exceeds 64 bytes")
    else if not (valid_string (trim_space r.color))
    then some (bytes "alert color must be valid UTF-8")
    else if is_empty (trim_space r.message)
    then some (bytes "alert message is required")
    else if not (valid_string (trim_space r.message))
    then some (bytes "alert message must be valid UTF-8")
    else if ltb max_bytes (length (trim_space r.message))
    then some (bytes "alert message exceeds " ++ itoa max_bytes ++ bytes " bytes")
    else none

abbrev pub answer_of : Text → Text ⊎ Error → AlertAck ⊎ Status
answer_of id (inl state) =
    inl (record { operation_id = id; state = state; command_state = alert_command_state state })
answer_of id (inr e) = inr (map_error e)

-- `AddAlert`: the answer, and the alert that the supervisor is given, if it is given one. `id` is
-- the fresh operation ID, `now` the time, and `admit` the supervisor's answer: a state or an error.
unfoldable pub add_alert :
    ℕ
    → Text
    → Time
    → (Alert → Text ⊎ Error)
    → Option AlertRequest
    → (AlertAck ⊎ Status) × Option Alert
unfolding bytes trim_space severity_of
add_alert max_bytes id now admit request = elim (refusal max_bytes request) [
  | some why ↦ (inr (invalid why), none)
  | none ↦ elim request [
    | none ↦ (inr (invalid (bytes "alert is required")), none)
    | some r ↦ elim (severity_of r.severity) [
      | none ↦ (inr (invalid (bytes "alert severity is invalid")), none)
      | some severity ↦
          let a : Alert = record {
            operation_id = id;
            color = trim_space r.color;
            message = trim_space r.message;
            severity = severity;
            received_at = now;
          } in
          (answer_of id (admit a), some a)
    ]
  ]
]
