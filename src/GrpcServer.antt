-- ===== src/GrpcServer.antt =====
-- internal/grpcserver/server.go: the requests that the service takes over gRPC.
pub mod News
pub mod Accepted
pub mod Stored
pub mod Auth
pub mod StatusReport
pub mod Alerts
pub mod Admission
mod Examples
use atlas.Base.{
  ℕ, zero, suc, ◌+◌, ◌-◌, Bool, true, false, not, ◌&&◌, ◌||◌, leb, ltb, List, [], ◌∷◌, ◌++◌, Text,
  bytes, text_eq, ◌==◌, if◌then◌else◌,
}
use atlas.Errors.{
  Error, errors_is, canceled, deadline_exceeded, shutting_down, queue_full, outside_active_window,
}

-- utf8.ValidString: `need` continuation bytes are still to come, the next between `low` and `high`.
unfoldable pub valid_from : (need low high : ℕ) → Text → Bool
valid_from need low high [] = need == 0
valid_from (suc need) low high (c ∷ s) = leb low c && leb c high && valid_from need 128 191 s
valid_from zero low high (c ∷ s) =
    ltb c 128 && valid_from 0 128 191 s
    || leb 194 c && leb c 223 && valid_from 1 128 191 s
    || c == 224 && valid_from 2 160 191 s
    || (leb 225 c && leb c 236 || leb 238 c && leb c 239) && valid_from 2 128 191 s
    || c == 237 && valid_from 2 128 159 s
    || c == 240 && valid_from 3 144 191 s
    || leb 241 c && leb c 243 && valid_from 3 128 191 s
    || c == 244 && valid_from 3 128 143 s

unfoldable pub valid_string : Text → Bool
unfolding valid_from
valid_string s = valid_from 0 128 191 s

-- The status codes that the server answers with.
pub data Code : Type 0 where
  code_canceled code_invalid_argument code_deadline_exceeded code_unavailable : Code
  code_resource_exhausted code_failed_precondition code_internal : Code

pub record Status : Type 0 where
  pub code : Code
  pub message : Text

-- `mapError`
unfoldable pub map_error : Error → Status
unfolding bytes errors_is
map_error e =
    if errors_is e canceled
    then record { code = code_canceled; message = bytes "request cancelled before acceptance" }
    else if errors_is e deadline_exceeded
    then record {
      code = code_deadline_exceeded;
      message = bytes "request deadline reached before acceptance";
    }
    else if errors_is e shutting_down
    then record { code = code_unavailable; message = bytes "service is shutting down" }
    else if errors_is e queue_full
    then record { code = code_resource_exhausted; message = bytes "alert queue is full" }
    else if errors_is e outside_active_window
    then record {
      code = code_failed_precondition;
      message = bytes "alerts are not accepted outside the active window";
    }
    else record { code = code_internal; message = bytes "lifecycle operation failed" }
