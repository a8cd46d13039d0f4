-- ===== src/Vm/VmBase.antt =====
-- src/sysinfo/vm/dynamic/vm_base.cpp: the virtual machines that run, and their data. A machine is found
-- by the command of its process: Line reads a line that `ps` prints, Data holds the state and the
-- refresh, Query the getters.
mod Tests
pub mod Line
pub mod Data
pub mod Query
pub mod Times
pub mod Threads
