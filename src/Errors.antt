-- ===== src/Errors.antt =====
-- Go's error values as the program uses them: package-level sentinels compared by `errors.Is`,
-- plain messages, and messages that wrap another error by `%w` (internal/supervisor/supervisor.go,
-- internal/display/controller.go and the `fmt.Errorf` calls of every package).
pub mod Chains
use atlas.Base.{ℕ, Bool, true, false, Text, bytes, ◌++◌, ◌==◌}

pub data Sentinel : Type 0 where
  canceled : Sentinel  -- context.Canceled
  deadline_exceeded : Sentinel  -- context.DeadlineExceeded
  shutting_down queue_full outside_active_window worker_stop_timeout : Sentinel
  not_running : Sentinel  -- display.ErrNotRunning

pub data Error : Type 0 where
  sentinel : Sentinel → Error
  message : Text → Error
  wrapped : Text → Error → Error
  noted : Error → Text → Error  -- fmt.Errorf("%w: %s", err, text)

abbrev sentinel_index : Sentinel → ℕ
sentinel_index canceled = 0
sentinel_index deadline_exceeded = 1
sentinel_index shutting_down = 2
sentinel_index queue_full = 3
sentinel_index outside_active_window = 4
sentinel_index worker_stop_timeout = 5
sentinel_index not_running = 6

-- errors.Is: the chain of wrapped errors is searched for the sentinel.
unfoldable pub errors_is : Error → Sentinel → Bool
errors_is (sentinel s) t = sentinel_index s == sentinel_index t
errors_is (message m) t = false
errors_is (wrapped p e) t = errors_is e t
errors_is (noted e m) t = errors_is e t

sentinel_text : Sentinel → Text
sentinel_text canceled = bytes "context canceled"
sentinel_text deadline_exceeded = bytes "context deadline exceeded"
sentinel_text shutting_down = bytes "service is shutting down"
sentinel_text queue_full = bytes "alert queue is full"
sentinel_text outside_active_window = bytes "outside active window"
sentinel_text worker_stop_timeout = bytes "worker stop timeout"
sentinel_text not_running = bytes "display is not running"

-- err.Error()
unfoldable pub error_text : Error → Text
unfolding sentinel_text bytes
error_text (sentinel s) = sentinel_text s
error_text (message m) = m
error_text (wrapped p e) = p ++ bytes ": " ++ error_text e
error_text (noted e m) = error_text e ++ bytes ": " ++ m

-- A result of Go code: a value, an error, or a run-time panic.
pub data Result {ℓ} (A : Type ℓ) : Type ℓ where
  ok : A → Result A
  err : Error → Result A
  panic : Result A

infixl 5 ◌>>=◌ ◌>>◌
abbrev pub ◌>>=◌ {ℓ κ} : {A : Type ℓ} {B : Type κ} → Result A → (A → Result B) → Result B
ok a >>= f = f a
err e >>= f = err e
panic >>= f = panic

abbrev pub ◌>>◌ {ℓ} : {B : Type ℓ} → Result (Unit {0}) → Result B → Result B
m >> k = m >>= λ _. k

-- `if c { return e }`
abbrev pub fail_if : Bool → Error → Result (Unit {0})
fail_if true e = err e
fail_if false e = ok tt

-- `fmt.Errorf("p: %w", err)` around an error
abbrev pub with_prefix : {A : Type 0} → Text → Result A → Result A
with_prefix p (ok a) = ok a
with_prefix p (err e) = err (wrapped p e)
with_prefix p panic = panic
