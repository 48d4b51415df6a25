-- ===== src/Examples.antt =====
-- Runs of the theorems on concrete inputs, a file for each part of the program.
pub mod Numbers
pub mod Tables
pub mod Queues
pub mod Mac
pub mod Sessions
pub mod Slots
pub mod Headers
pub mod Routes
pub mod Nodes
pub mod Reception
pub mod Lookup
pub mod Beacon
pub mod Air
pub mod Frames
pub mod Link
pub mod SlotFiles
pub mod Interfaces
pub mod Scenario
