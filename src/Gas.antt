-- ===== src/Gas.antt =====
-- The gas that pays for transactions.
pub mod Station
mod Examples
