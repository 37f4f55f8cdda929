-- ===== src/Driver.antt =====
-- packages/driver-app: the offline outbox and the background location task of the driver app.
pub mod Outbox
pub mod Location
pub mod Client
pub mod Screen
