-- ===== src/Examples.antt =====
-- Runs of the program's parts at concrete inputs, and the theorems applied to them.
pub mod Chains
pub mod Disks
pub mod Dialogues
pub mod Cascades
pub mod Databases
pub mod Markers
pub mod Samples
pub mod Rows
pub mod Pools
pub mod Times
pub mod Commands
pub mod Settings
pub mod Files
pub mod Frames
pub mod Startups
pub mod Requests
