-- ===== src/Lib.antt =====
-- libvsf samples the use of the hardware by the virtual machines of a host, and moves their
-- threads. This library models its code and proves what its parts do.
--
-- The singleton CpuUsage (src/sysinfo/vm/dynamic/cpu_usage.cpp) reads /proc/stat and the tasks of
-- the processes that it watches; VmCpuUsage (vm_cpu_usage.cpp, beside it) asks VmBase (vm_base.cpp)
-- for the virtual machines and keeps CpuUsage watching their processes. In the same way CacheMiss
-- (cache_miss.cpp) counts the events of the threads it watches, and VmCacheMiss (vm_cache_miss.cpp)
-- keeps it watching the threads of the machines. VmSet (src/framework/vm.cpp) turns these
-- singletons on and off by the options (include/framework/define_func_option.h) that a FuncOption
-- (src/utils/func_option.cpp) holds. Numbers and names are read by src/utils/str_tools.cpp, the
-- shares of memory on the nodes by src/sysinfo/vm/dynamic/vm_numa_info.cpp. The threads of the
-- singletons are Runnables (src/utils/runnable.cpp). The memory, the distances and the cores of the
-- host are read under src/sysinfo/host: NodeCpu (static/node_cpu.cpp) knows its nodes, sockets and
-- cores, NodeSysDist and NodeTestDist (beside it) the distances that numactl prints and the
-- benchmark measures, totalMemSize and hsUsedMemSize its memory, hsCpuUsage
-- (dymatic/hs_cpu_usage.cpp) the use of its processors. Host (src/framework/host.cpp) refreshes
-- them by the options, and Vsf (src/vsf.cpp) is the entry that hands each option to Host or VmSet.
-- vmNodeInfo (src/sysinfo/vm/static/vm_node_info.cpp) reads the nodes of a machine off its command
-- line. src/exec/cpu_mig.cpp binds threads to processors, and src/utils/microbench.c makes load.
--
-- Vm.CpuUsage.Data holds the state of CpuUsage, Refresh its refresh with one definition per loop,
-- Query the getters. System, Watching, Threads, Progress and Kept are the proofs, by what they
-- prove. Vm.VmCpuUsage is VmCpuUsage, with its link to CpuUsage in Tracking.
--
-- Vm.CacheMiss.Kernel is what perf_event_open, ioctl, read and close do, as an interface; Data is
-- one counter and the four of a thread, Sample the singleton; Accounts, Reads, Descriptors and
-- Watching are the proofs. Vm.VmCacheMiss is VmCacheMiss, with its link to CacheMiss in Tracking.
--
-- Vm.VmBase.Data holds the state of VmBase, with its refreshes, Line the reading of a line that
-- `ps` prints, Query the getters; Times and Threads are the proofs. Vm.VmId is VmId with its two
-- comparisons. Vm.NumaInfo.Blocks and Parse are the parsing of numa_maps and of the node ids, Words
-- and Pages the proofs.
--
-- Utils.Options is the enumerations of the options and their defaults, ParamVal the tagged union of
-- a parameter, FuncOption the map of the enabled options. Utils.StrTools has strip, split and the
-- tests of names, Numbers the parsing of std::stoi. Utils.Runnable is the life of a thread, with
-- the steps of the caller and of the thread as a relation in Reach. Utils.Microbench is the sizes
-- and the bindings of the threads of microbench.c, with their proofs in Bindings and Sizes;
-- Utils.Microbench.Load is the accesses of a thread, Args the arguments and what a thread does with
-- the settings, and Streams, Touches and Valid are the proofs. Migration is CpuMig, with the masks
-- of processors in Masks. Framework.VmSet is the options of VmSet, with their behaviour in Faults.
-- Utils.PerfEvent is the ring buffer of src/utils/perf_event.cpp, with its reads in Ring.
--
-- Host.NodeCpu is NodeCpu with its refresh, Getters its getters; Topology and Reading are the
-- proofs. Host.NodeSysDist is the printed distances, with its proof in Table, Host.NodeTestDist the
-- measured ones, with Stale, Host.Memory both singletons of the memory, with Sums, Host.HsCpuUsage
-- hsCpuUsage, with Usage, and Host.NodeSize the sizes that static/node_size.cpp reads, with
-- Meminfo. Framework.Host is Host, with its getters in Getters and MicroParams on the parameters of
-- the benchmark; Framework.Vsf is Vsf, with the options after its calls in Enabled, for which
-- Framework.VmSet.Leaves is about VmSet. Framework.Vm is the class VM, whose methods go to the
-- components by the state of Vsf; Migrated is the proof on a migration, from the machine to the
-- calls of the system. Framework.Compat is the checks of src/framework/compat.cpp. Vm.VmNodeInfo is
-- vmNodeInfo; CmdLine is the proof on the command line, Attr that on the attributes.
--
-- Container holds std::map, std::set and the two algorithms on sorted ranges in use, Prelude the
-- machine's integers, and Prelude.Exec the calls that change an object and may throw. The modules
-- called Tests run the definitions on concrete inputs.
--
-- An `unsigned` is a natural number with its wrap-around written out; an `int` is an integer that
-- is read back from 32 bits where the code casts. The counts of pages are taken as they are: an
-- `int` that would overflow is not modelled. Intervals of time are not negative and difftime is
-- exact. `double` is an interface, and a file descriptor an Option, none for -1. A callback of
-- CpuUsage and CacheMiss is a number; what it is called with is a result of the refresh. The system
-- is an argument: what /proc/stat and openproc return at each refresh, what `ps` prints, the text
-- of numa_maps, of cpulist and of /proc/cpuinfo, the kernel's counters. A query that waits for the
-- refreshing thread returns `none`. The output of numactl and of the benchmark, libnuma, the
-- command line of a process and the page size are arguments too. The memory of the benchmark is
-- lists of words of 64 bits, and an access outside them is an error; its loops are recursion on the
-- number of their rounds. One loop has fuel, that which reads the command line block by block: it
-- is more than the bytes of the file, and each round but the last takes at least one. The others
-- run over a list, over the characters of a text, or a number of rounds that is known before.
--
-- Not modelled: locks and memory order (each operation on a singleton is one step), the loops of
-- the refreshing threads, migration of memory (src/exec/mem_mig.cpp) and the used memory of the
-- machines (src/sysinfo/vm/dynamic/vm_used_mem_size.cpp), neither of which compiles, the creation
-- and the times of the threads of microbench, logging and printing.
pub mod Prelude
pub mod Container
pub mod Framework
pub mod Host
pub mod Migration
pub mod Utils
pub mod Vm
