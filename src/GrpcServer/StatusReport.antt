-- ===== src/GrpcServer/StatusReport.antt =====
-- internal/grpcserver/server.go: `GetStatus`, which shows the supervisor's snapshot to a caller.
pub mod LastError
use atlas.Base.{
  ℕ, ◌/◌, ◌%◌, ◌^◌, Bool, true, false, ltb, List, [], ◌∷◌, length, take, Text, join, runes, text_of,
  fields, ℤ, pos, sub_ℕ, Option, none, some, ◌⊎◌, inl, inr, if◌then◌else◌,
}
use atlas.Errors.{Error}
use atlas.Alert.{Time}
use atlas.GrpcServer.{Status, map_error}
use atlas.Supervisor.State.{
  LifecycleState, off, starting, running, pausing, alerting, stopping, failed, State,
}

-- `sanitizeStatusError`
unfoldable pub sanitize_status_error : Text → Text
unfolding fields join runes text_of
sanitize_status_error value =
    let v = join (32 ∷ []) (fields value) in
    if ltb 512 (length (runes v)) then text_of (take 512 (runes v)) else v

-- The `LifecycleState` of the protocol.
pub data ProtoState : Type 0 where
  proto_off proto_starting proto_running proto_pausing : ProtoState
  proto_alerting proto_stopping proto_failed : ProtoState

-- `lifecycleToProto`, of the states that there are
unfoldable pub lifecycle_to_proto : LifecycleState → ProtoState
lifecycle_to_proto off = proto_off
lifecycle_to_proto starting = proto_starting
lifecycle_to_proto running = proto_running
lifecycle_to_proto pausing = proto_pausing
lifecycle_to_proto alerting = proto_alerting
lifecycle_to_proto stopping = proto_stopping
lifecycle_to_proto failed = proto_failed

-- Times are in nanoseconds since the epoch, `Unix` in seconds.
unfoldable pub unix_or_zero : Time → ℕ
unix_or_zero none = 0
unix_or_zero (some t) = t / 1_000_000_000

-- int32 of a number that is not negative
abbrev pub int32 : ℕ → ℤ
int32 n = let low = n % 2 ^ 32 in if ltb low (2 ^ 31) then pos low else sub_ℕ low (2 ^ 32)

pub record ServiceStatus : Type 0 where
  pub lifecycle : ProtoState
  pub desired_on : Bool
  pub display_running : Bool
  pub news_running : Bool
  pub alert_running : Bool
  pub queued_alerts : ℤ
  pub current_alert_operation_id : Text
  pub last_started_unix : ℕ
  pub last_stopped_unix : ℕ
  pub last_refresh_unix : ℕ
  pub last_error : Text

-- `GetStatus`, on the supervisor's snapshot or its error
unfoldable pub get_status : State ⊎ Error → ServiceStatus ⊎ Status
unfolding lifecycle_to_proto unix_or_zero sanitize_status_error
get_status (inr e) = inr (map_error e)
get_status (inl s) = inl (record {
  lifecycle = lifecycle_to_proto s.lifecycle;
  desired_on = s.desired_on;
  display_running = s.display_running;
  news_running = s.news_running;
  alert_running = s.alert_running;
  queued_alerts = int32 s.queued_alerts;
  current_alert_operation_id = s.current_alert_operation_id;
  last_started_unix = unix_or_zero s.last_started_at;
  last_stopped_unix = unix_or_zero s.last_stopped_at;
  last_refresh_unix = unix_or_zero s.last_refresh_at;
  last_error = sanitize_status_error s.last_error;
})
