-- ===== src/Router.antt =====
-- crates/router: the in-memory room and session routing model.
pub mod State
pub mod Rooms
pub mod Peers
pub mod Hosts
pub mod Discovery
pub mod Gameplay
pub mod Expiry
pub mod Dispatch
pub mod Directory
pub mod Invariant
