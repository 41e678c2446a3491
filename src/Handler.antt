-- ===== src/Handler.antt =====
-- core/module/handler/stdHandler.go: the handler that runs a module's steps and answers.
mod Direction
mod Loops
mod Serve
pub mod Stable
pub mod Answered
pub mod Signed
pub mod Outcome
pub mod Leak
pub mod Mismatch
unfoldable pub use Direction.*
unfoldable pub use Loops.*
unfoldable pub use Serve.*
