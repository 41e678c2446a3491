-- ===== src/Provider.antt =====
-- pkg/plugin/implementation/internal/common: the step that answers a request by calling a provider.
pub mod Paths
pub mod Reaches
pub mod Binding
pub mod Bound
pub mod Retry
pub mod Budget
pub mod Call
pub mod Tried
pub mod Serve
pub mod Run
pub mod Lawful
