-- ===== src/Supervisor.antt =====
-- internal/supervisor/supervisor.go: the goroutine that owns the display, the news worker and the
-- alert worker, and the commands that other goroutines send to it.
pub mod State
pub mod Monad
pub mod Workers
pub mod Loop
pub mod Invariant
pub mod Effects
pub mod Replies
pub mod Safety
pub mod Order
pub mod Shutdown
pub mod Winding
pub mod Settling
pub mod Startup
mod Examples
