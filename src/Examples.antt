-- ===== src/Examples.antt =====
-- Concrete inputs that meet the theorems' hypotheses.
pub mod Connections
pub mod Messages
pub mod Machines
pub mod Relays
pub mod Reports
pub mod Scenarios
pub mod Hashes
pub mod Archives
pub mod Logins
pub mod AccountFiles
pub mod Challenges
pub mod Throttles
