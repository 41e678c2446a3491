-- ===== src/Crawl.antt =====
-- pkg/plugin/implementation/catalogcrawler: the store of the catalog crawler.
pub mod Table
pub mod Unique
pub mod Queue
pub mod Cursor
pub mod Settle
pub mod Sound
pub mod Reachable
pub mod Enqueued
pub mod Claim
pub mod Lease
pub mod Claimed
pub mod Sweep
pub mod Recorded
