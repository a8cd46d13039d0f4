-- ===== src/Vm/NumaInfo.antt =====
-- src/sysinfo/vm/dynamic/vm_numa_info.cpp: the memory of a process by NUMA node. An `int` is an integer
-- here: a process has fewer than 2 ^ 31 pages. What is done with the memory blocks is in Pages, how
-- they are read from a line of numa_maps is in Parse.
mod Tests
pub mod Blocks
pub mod Parse
pub mod Pages
pub mod Words
