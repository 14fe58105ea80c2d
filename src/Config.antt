-- ===== src/Config.antt =====
-- internal/config/config.go: the settings of the service, their defaults and their validation.
-- A duration is a number of nanoseconds.
pub mod Validity
pub mod Decision
pub mod Examples
use atlas.Base.{
  div_ℤ, rem_by, ℕ, ◌*◌, ◌%◌, ◌/◌, Bool, false, ◌||◌, ◌&&◌, not, Text, bytes, ℤ, pos, negsuc, ltb_ℤ,
  leb_ℤ, ◌==◌, is_empty, Option, none, some, zero, suc,
}
use atlas.Errors.{Error, Result, ok, err, panic, ◌>>=◌, ◌>>◌, fail_if, message, wrapped}

abbrev pub second : ℕ
second = 1_000_000_000

abbrev pub minute : ℕ
minute = 60_000_000_000

abbrev pub hour : ℕ
hour = 3_600_000_000_000

pub record Config : Type 0 where
  pub timezone : Text
  pub start_hour : ℤ
  pub start_minute : ℤ
  pub stop_hour : ℤ
  pub stop_minute : ℤ
  pub news_refresh_interval : ℤ
  pub alert_display_duration : ℤ
  pub worker_stop_timeout : ℤ
  pub operation_timeout : ℤ
  pub startup_retry_count : ℤ
  pub startup_retry_delay : ℤ
  pub grpc_listen_address : Text
  pub grpc_shutdown_timeout : ℤ
  pub alert_queue_capacity : ℤ
  pub command_queue_capacity : ℤ
  pub alert_message_max_bytes : ℤ
  pub allow_alerts_outside_active_window : Bool

unfoldable pub default : Config
unfolding bytes
default = record {
  timezone = bytes "Asia/Kolkata";
  start_hour = pos 7;
  start_minute = pos 0;
  stop_hour = pos 23;
  stop_minute = pos 0;
  news_refresh_interval = pos (15 * minute);
  alert_display_duration = pos (30 * second);
  worker_stop_timeout = pos (5 * second);
  operation_timeout = pos (30 * second);
  startup_retry_count = pos 3;
  startup_retry_delay = pos second;
  grpc_listen_address = bytes "127.0.0.1:50050";
  grpc_shutdown_timeout = pos (10 * second);
  alert_queue_capacity = pos 100;
  command_queue_capacity = pos 256;
  alert_message_max_bytes = pos 1000;
  allow_alerts_outside_active_window = false;
}

abbrev pub is_zero : ℤ → Bool
is_zero (pos n) = n == 0
is_zero (negsuc n) = false

abbrev pub equal_ℤ : ℤ → ℤ → Bool
equal_ℤ a b = leb_ℤ a b && leb_ℤ b a

unfoldable pub rem_ℤ : ℤ → ℤ → Result ℤ
rem_ℤ a (negsuc d) = ok (rem_by a (suc d))
rem_ℤ a (pos zero) = panic
rem_ℤ a (pos (suc d)) = ok (rem_by a (suc d))

abbrev outside : ℤ → ℕ → Bool
outside v top = ltb_ℤ v (pos 0) || ltb_ℤ (pos top) v

abbrev not_positive : ℤ → Bool
not_positive v = leb_ℤ v (pos 0)

-- `load_location` is what time.LoadLocation says of a name: it reads the time zone database.
unfoldable pub validate : (Text → Option Error) → Config → Result (Unit {0})
unfolding bytes
validate load_location c = do
  elim (load_location c.timezone) [ none ↦ ok tt | some e ↦ err (wrapped (bytes "timezone") e) ]
  fail_if (outside c.start_hour 23 || outside c.stop_hour 23)
      (message (bytes "hours must be between 0 and 23"))
  fail_if (outside c.start_minute 59 || outside c.stop_minute 59)
      (message (bytes "minutes must be between 0 and 59"))
  fail_if (equal_ℤ c.start_hour c.stop_hour && equal_ℤ c.start_minute c.stop_minute)
      (message (bytes "start and stop times must differ"))
  fail_if (not_positive c.news_refresh_interval || not_positive c.alert_display_duration)
      (message (bytes "refresh and alert durations must be positive"))
  fail_if (ltb_ℤ (pos hour) c.news_refresh_interval)
      (message (bytes "news refresh interval must be at most 1 hour"))
  rest ← rem_ℤ c.news_refresh_interval (pos minute)
  fail_if (not (is_zero rest))
      (message (bytes "news refresh interval must be a whole number of minutes"))
  left ← rem_ℤ (pos 60) (div_ℤ c.news_refresh_interval minute)
  fail_if (not (is_zero left)) (
      message
        (bytes "news refresh interval must divide 1 hour evenly (e.g. 15m for :00/:15/:30/:45)"))
  fail_if
      (not_positive c.worker_stop_timeout
        || not_positive c.operation_timeout
        || not_positive c.grpc_shutdown_timeout)
      (message (bytes "timeouts must be positive"))
  fail_if (not_positive c.startup_retry_count || not_positive c.startup_retry_delay)
      (message (bytes "startup retry settings must be positive"))
  fail_if (ltb_ℤ (pos 10) c.startup_retry_count)
      (message (bytes "startup retry count must be at most 10"))
  fail_if
      (not_positive c.alert_queue_capacity
        || not_positive c.command_queue_capacity
        || not_positive c.alert_message_max_bytes)
      (message (bytes "queue capacities and message limit must be positive"))
  fail_if (is_empty c.grpc_listen_address) (message (bytes "gRPC listen address is required"))
