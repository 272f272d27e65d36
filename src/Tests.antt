-- ===== src/Tests.antt =====
-- The components at concrete inputs, with whole numbers for the floats.
mod Clock
mod Segments
mod Book
mod Trials
mod Rows
mod Seams
mod Snapshots
mod Holdout
mod Barriers
mod Spans
