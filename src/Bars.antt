-- ===== src/Bars.antt =====
-- The package bars/: the bar clock.
pub mod Events
pub mod Clock
pub mod Schedule
pub mod Day
pub mod Produce
pub mod Snapshot
