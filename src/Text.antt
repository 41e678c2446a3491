-- ===== src/Text.antt =====
-- The functions of Go's `strings` and `strconv` packages that the sources call, over code points.
mod Search
mod Split
mod Number
mod Integer
mod Trim
unfoldable pub use Search.*
unfoldable pub use Split.*
unfoldable pub use Number.*
unfoldable pub use Integer.*
unfoldable pub use Trim.*
