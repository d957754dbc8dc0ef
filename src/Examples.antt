-- ===== src/Examples.antt =====
-- Tests of the models at concrete inputs, and the theorems applied to them.
pub mod Sched
pub mod Threads
pub mod Data
pub mod Kernel
pub mod Frame
pub mod Crew
pub mod Render
pub mod App
pub mod Log
pub mod Columns
pub mod Host
pub mod Times
pub mod Args
