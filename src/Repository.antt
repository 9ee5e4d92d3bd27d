-- ===== src/Repository.antt =====
-- The repositories of db/repository.py, a module for each class.
pub mod Usage
pub mod Assignments
pub mod Resellers
pub mod Clients
pub mod Alerts
pub mod Panels
pub mod Templates
pub mod Plans
pub mod Orders
pub mod GuestConfig
