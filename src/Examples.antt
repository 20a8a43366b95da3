-- ===== src/Examples.antt =====
-- Runs of the handlers on a small host, and the instances of the theorems.
pub mod Setting
pub mod Runs
pub mod Instances
pub mod MemoryInstances
pub mod Walking
pub mod Sharing
pub mod Streaming
pub mod Polling
pub mod Importing
pub mod Configuring
