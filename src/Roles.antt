-- ===== src/Roles.antt =====
-- Package roles (internal/roles): the roles that a process runs.
pub mod MessageHandler
pub mod MessageDispatcher
pub mod TcpListener
pub mod Check
pub mod PingProbe
pub mod Units
pub mod InternetCheck
pub mod SummaryReporter
pub mod Loops
pub mod Calls
