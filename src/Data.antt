-- ===== src/Data.antt =====
-- data/: the splits and weights of the training rows.
pub mod Cv
pub mod Uniqueness
pub mod Labels
