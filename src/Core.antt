-- ===== src/Core.antt =====
-- crates/transferred-core: errors, the run report, and the transfer with the traits it joins.
pub mod Error
pub mod Effect
pub mod Arrow
pub mod Equality
pub mod Report
pub mod Transfer
pub mod Keeping
