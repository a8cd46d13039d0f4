-- ===== src/Vm/CacheMiss.antt =====
-- src/sysinfo/vm/dynamic/cache_miss.cpp: cache misses by thread, counted by the kernel's performance
-- events.
mod Tests
pub mod Kernel
pub mod Data
pub mod Sample
pub mod Accounts
pub mod Reads
pub mod Watching
pub mod Descriptors
