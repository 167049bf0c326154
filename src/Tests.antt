-- ===== src/Tests.antt =====
-- Concrete inputs of the theorems, one module for each part of the program.
pub mod Machine
pub mod Units
pub mod Delivery
pub mod Configs
pub mod Requests
pub mod Checks
pub mod Daemons
pub mod Shutdowns
pub mod Channels
pub mod Arrivals
pub mod Probes
pub mod Fleets
pub mod Speeds
