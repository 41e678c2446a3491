-- ===== src/Router.antt =====
-- pkg/plugin/implementation/router/router.go: the routing table and the choice of a route.
pub mod Join
pub mod Load
pub mod Choose
pub mod Table
pub mod Invariant
pub mod Loaded
pub mod Chosen
