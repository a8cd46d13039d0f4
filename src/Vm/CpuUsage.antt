-- ===== src/Vm/CpuUsage.antt =====
-- src/sysinfo/vm/dynamic/cpu_usage.cpp and its header: the CPU use of the system, of processes and
-- of threads, from /proc. The lock is held for the whole of each operation, so an operation is one
-- step. What /proc and procps report is an argument. A sum of `int`s that passes the range wraps.
pub mod Data
pub mod Refresh
pub mod Query
pub mod System
pub mod Watching
pub mod Threads
pub mod Progress
pub mod Kept
