-- ===== src/TimeSync.antt =====
-- Time synchronization (src/timesync.rs): the calendar, the clocks, the sources and the election.
pub mod Calendar
pub mod RoundTrip
pub mod Clock
pub mod Slew
pub mod Steer
pub mod Rank
pub mod Sources
pub mod Reading
pub mod Tracker
pub mod Announce
pub mod Election
pub mod Learned
pub mod Samples
pub mod Exchange
mod Tests
