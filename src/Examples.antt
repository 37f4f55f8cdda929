-- ===== src/Examples.antt =====
-- Concrete runs of the program, and the data that they use.
mod Data
mod Prices
mod Orders
mod Assignments
mod Deliveries
mod Payments
mod Accounts
mod Apps
mod Routes
mod Sockets
mod Messages
