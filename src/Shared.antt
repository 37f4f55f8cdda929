-- ===== src/Shared.antt =====
-- packages/shared: the code that the API, the dashboard and the driver app have in common.
pub mod Enums
pub mod StateMachine
pub mod Pricing
