-- ===== src/Tests.antt =====
-- Concrete states of the kernel, and the theorems about it at these states.
pub mod Demo
pub mod Queues
pub mod Processes
pub mod Locks
pub mod Memory
pub mod Libs
pub mod Disk
pub mod Print
pub mod Files
pub mod Calls
pub mod Turns
