-- ===== src/Fairness.antt =====
-- The arbitration between producers under pressure, src/admission_fairness.rs.
pub mod Loads
pub mod Dominant
mod Tallies
mod Recorded
pub mod Tallied
pub mod Victim
pub mod Owners
pub mod Composed
mod Tests
