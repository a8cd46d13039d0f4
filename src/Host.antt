-- ===== src/Host.antt =====
-- src/sysinfo/host: what is known of the host.
pub mod NodeCpu
pub mod NodeSysDist
pub mod NodeTestDist
pub mod Memory
pub mod HsCpuUsage
pub mod NodeSize
