-- ===== src/Tests.antt =====
-- The theorems at concrete inputs.
pub mod Plugins
mod Crawl
mod Crypto
mod Signing
mod Routing
mod Serving
mod Provider
mod Pipeline
