-- ===== src/Framework/Host/Getters.antt =====
-- The getters of `Host`, which are those of its components.
use libvsf.Prelude.{ℕ}
use libvsf.Prelude.Int.{ℤ}
use libvsf.Prelude.Double.{Double}
use libvsf.Prelude.Exec.{Exec}
use libvsf.Container.Set.{Set}
use libvsf.Host.NodeCpu.{NodeId, SocketId, HpthreadId, CoreId}
use libvsf.Host.NodeCpu.Getters as Cpu
use libvsf.Host.NodeSysDist.{at_each}
use libvsf.Framework.Host.{Host, HostSystem, on_cpu, node_sys_dist, node_test_dist}

module _ (d : Double) (sys : HostSystem d) where
  abbrev pub host_node_num : Exec (Host d.F) ℕ
  host_node_num = on_cpu (Cpu.get_node_num sys.files sys.node_dir)

  abbrev pub host_node_ids : Exec (Host d.F) (Set NodeId)
  host_node_ids = on_cpu (Cpu.get_node_ids sys.files sys.node_dir)

  abbrev pub host_node_of_socket : SocketId → Exec (Host d.F) NodeId
  host_node_of_socket id = on_cpu (Cpu.node_of_socket sys.files sys.node_dir id)

  abbrev pub host_node_of_core : CoreId → Exec (Host d.F) NodeId
  host_node_of_core id = on_cpu (Cpu.node_of_core sys.files sys.node_dir id)

  abbrev pub host_node_of_hpthread : HpthreadId → Exec (Host d.F) NodeId
  host_node_of_hpthread id = on_cpu (Cpu.node_of_hpthread sys.files sys.node_dir id)

  abbrev pub host_socket_num : Exec (Host d.F) ℕ
  host_socket_num = on_cpu (Cpu.get_socket_num sys.files sys.node_dir)

  abbrev pub host_socket_num_of_node : NodeId → Exec (Host d.F) ℕ
  host_socket_num_of_node id = on_cpu (Cpu.socket_num_of_node sys.files sys.node_dir id)

  abbrev pub host_socket_ids : Exec (Host d.F) (Set SocketId)
  host_socket_ids = on_cpu (Cpu.get_socket_ids sys.files sys.node_dir)

  abbrev pub host_sockets_of_node : NodeId → Exec (Host d.F) (Set SocketId)
  host_sockets_of_node id = on_cpu (Cpu.sockets_of_node sys.files sys.node_dir id)

  abbrev pub host_socket_of_core : CoreId → SocketId
  host_socket_of_core = Cpu.socket_of_core sys.files sys.node_dir

  abbrev pub host_socket_of_hpthread : HpthreadId → Exec (Host d.F) SocketId
  host_socket_of_hpthread id = on_cpu (Cpu.socket_of_hpthread sys.files sys.node_dir id)

  abbrev pub host_core_num : Exec (Host d.F) ℕ
  host_core_num = on_cpu (Cpu.get_core_num sys.files sys.node_dir)

  abbrev pub host_core_num_of_node : NodeId → Exec (Host d.F) ℕ
  host_core_num_of_node id = on_cpu (Cpu.core_num_of_node sys.files sys.node_dir id)

  abbrev pub host_core_num_of_socket : SocketId → Exec (Host d.F) ℕ
  host_core_num_of_socket id = on_cpu (Cpu.core_num_of_socket sys.files sys.node_dir id)

  abbrev pub host_core_ids : Exec (Host d.F) (Set CoreId)
  host_core_ids = on_cpu (Cpu.get_core_ids sys.files sys.node_dir)

  abbrev pub host_cores_of_node : NodeId → Exec (Host d.F) (Set CoreId)
  host_cores_of_node id = on_cpu (Cpu.cores_of_node sys.files sys.node_dir id)

  abbrev pub host_cores_of_socket : SocketId → Exec (Host d.F) (Set CoreId)
  host_cores_of_socket id = on_cpu (Cpu.cores_of_socket sys.files sys.node_dir id)

  abbrev pub host_core_of_hpthread : HpthreadId → Exec (Host d.F) CoreId
  host_core_of_hpthread id = on_cpu (Cpu.core_of_hpthread sys.files sys.node_dir id)

  abbrev pub host_hpthread_num : Exec (Host d.F) ℕ
  host_hpthread_num = on_cpu (Cpu.get_hpthread_num sys.files sys.node_dir)

  abbrev pub host_hpthread_num_of_node : NodeId → Exec (Host d.F) ℕ
  host_hpthread_num_of_node id = on_cpu (Cpu.hpthread_num_of_node sys.files sys.node_dir id)

  abbrev pub host_hpthread_num_of_socket : SocketId → Exec (Host d.F) ℕ
  host_hpthread_num_of_socket id = on_cpu (Cpu.hpthread_num_of_socket sys.files sys.node_dir id)

  abbrev pub host_hpthread_num_of_core : CoreId → Exec (Host d.F) ℕ
  host_hpthread_num_of_core id = on_cpu (Cpu.hpthread_num_of_core sys.files sys.node_dir id)

  abbrev pub host_hpthread_ids : Exec (Host d.F) (Set HpthreadId)
  host_hpthread_ids = on_cpu (Cpu.get_hpthread_ids sys.files sys.node_dir)

  abbrev pub host_hpthreads_of_node : NodeId → Exec (Host d.F) (Set HpthreadId)
  host_hpthreads_of_node id = on_cpu (Cpu.hpthreads_of_node sys.files sys.node_dir id)

  abbrev pub host_hpthreads_of_socket : SocketId → Exec (Host d.F) (Set HpthreadId)
  host_hpthreads_of_socket id = on_cpu (Cpu.hpthreads_of_socket sys.files sys.node_dir id)

  abbrev pub host_hpthreads_of_core : CoreId → Exec (Host d.F) (Set HpthreadId)
  host_hpthreads_of_core id = on_cpu (Cpu.hpthreads_of_core sys.files sys.node_dir id)

  unfoldable pub node_sys_dist_of : ℕ → ℕ → Exec (Host d.F) ℤ
  node_sys_dist_of i j s = let (r, s') = node_sys_dist d sys s in (at_each i j r, s')

  unfoldable pub node_test_dist_of : ℕ → ℕ → Exec (Host d.F) ℤ
  node_test_dist_of i j s = let (r, s') = node_test_dist d sys s in (at_each i j r, s')
