-- ===== src/Recon.antt =====
-- The package recon/: order-book state, offline and live reconstruction.
pub mod Events
pub mod OrderBook
pub mod Reconstruct
pub mod Live
pub mod Stitch
