-- ===== src/Irq.antt =====
-- The irqbalance daemon: one module for each of its parts.
pub mod Cpumask
pub mod Text
pub mod Bitmap
pub mod Types
pub mod Lists
pub mod Load
pub mod Placement
pub mod Proc
pub mod Balance
pub mod Numa
pub mod Db
pub mod Activate
pub mod Options
pub mod Cycle
pub mod Topology
mod Tests
