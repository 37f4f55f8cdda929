-- ===== src/Api.antt =====
-- packages/api: the NestJS services over one database, one Redis and one Socket.IO server.
pub mod World
pub mod Events
pub mod Realtime
pub mod Zones
pub mod Drivers
pub mod Orders
pub mod Assignment
pub mod Scheduler
pub mod Delivery
pub mod Payments
pub mod Idempotency
pub mod Auth
pub mod Guards
pub mod Audit
pub mod Tracking
pub mod Gateway
pub mod Routes
pub mod Eta
pub mod Notifications
pub mod Analytics
pub mod Users
