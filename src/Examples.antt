-- ===== src/Examples.antt =====
-- Concrete hosts, databases and snapshots, and the theorems of the development on them.
pub mod Memory
pub mod Host
mod Stops
pub mod Rows
pub mod Measures
pub mod Cycles
mod Stopping
mod Screen
mod Run
