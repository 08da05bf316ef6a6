-- ===== src/Examples.antt =====
-- Concrete runs of the components, one file for each group of them.
pub mod Splits
pub mod Keys
pub mod Processes
pub mod Batches
pub mod Cluster
pub mod Workers
pub mod Lanes
pub mod Measures
pub mod Masters
pub mod Scripts
pub mod Sessions
