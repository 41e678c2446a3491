-- ===== src/Steps.antt =====
-- core/module/handler/step.go: the processing steps of a module.
mod Sign
mod Validate
mod Other
pub mod Verified
pub mod Same
pub mod Laws
pub mod Handshake
unfoldable pub use Sign.*
unfoldable pub use Validate.*
unfoldable pub use Other.*
