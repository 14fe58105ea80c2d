-- ===== src/Kindle.antt =====
-- internal/kindle: the control of a Kindle's screen over SSH.
pub mod Shell
pub mod Device
pub mod Cache
pub mod Rect
pub mod Clock
pub mod Story
pub mod Genre
