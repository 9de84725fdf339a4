-- ===== src/Pager.antt =====
-- Project3: the external pager, of my_vm_pager.cpp, my_utils.h and my_utils.cpp.
pub mod Files
pub mod Memory
pub mod Faults
pub mod Processes
pub mod Clock
pub mod Frames
pub mod Tables
pub mod Sound
pub mod Pool
pub mod Valid
pub mod Stores
pub mod Runs
pub mod Reused
mod Scenes
mod Examples
