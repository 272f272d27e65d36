-- ===== src/Eval.antt =====
-- The package eval/: the trial ledger, the consumption of the holdout and the partition contract.
pub mod Json
pub mod Ledger
pub mod Consumption
pub mod Partition
