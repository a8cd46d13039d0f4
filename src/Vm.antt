-- ===== src/Vm.antt =====
-- The data about virtual machines (src/sysinfo/vm/dynamic, src/sysinfo/vm/static).
mod Tests
pub mod VmId
pub mod VmBase
pub mod VmNodeInfo
pub mod CpuUsage
pub mod VmCpuUsage
pub mod CacheMiss
pub mod VmCacheMiss
pub mod NumaInfo
