-- ===== src/Pipeline.antt =====
-- The pipelines of the catalog publisher: pkg/plugin/implementation/catalogpublisher/pipeline.
pub mod Fault
pub mod Value
pub mod Context
pub mod Expand
pub mod Spec
pub mod Rows
pub mod Primitives
pub mod Calls
pub mod Interpreter
pub mod Catalog
pub mod Order
pub mod Path
pub mod Render
pub mod Build
pub mod Files
pub mod Rule
pub mod Retirement
pub mod Publish
pub mod Chunked
pub mod Grouped
pub mod Accounted
pub mod Named
pub mod Retired
pub mod Deduped
pub mod Joined
pub mod Written
pub mod Reauth
