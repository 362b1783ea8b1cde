-- ===== src/Engine.antt =====
-- rs-engine/src: the state of the engine and the handlers of its requests.
pub mod State
pub mod Outputs
pub mod Fill
pub mod Order
pub mod Cancel
pub mod Account
pub mod Queries
pub mod Dispatch
pub mod Start
pub mod Tests
