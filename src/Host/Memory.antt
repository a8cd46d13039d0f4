-- ===== src/Host/Memory.antt =====
-- src/sysinfo/host/static/total_mem_size.cpp and src/sysinfo/host/dymatic/hs_used_mem_size.cpp: the
-- memory of the host by NUMA node. libnuma is an argument; sums are taken to fit a `long long`.
mod Tests
pub mod Sums
use libvsf.Prelude.{
  ℕ, zero, suc, ◌+◌, Bool, true, false, ◌&&◌, not, Option, none, some, List, [], ◌∷◌, ◌++◌, ◌==◌,
  if◌then◌else◌,
}
use libvsf.Prelude.Int.{ℤ, pos, minus_one, ◌+ℤ◌, ◌-ℤ◌, leb_ℤ, eqb_ℤ}
use libvsf.Prelude.Exec.{Result, ok, err, invalid_node}
use libvsf.Container.Order.{nat_less}
use libvsf.Container.Map.{Map, find, emplace}

pub record MemInfo : Type 0 where
  pub mem_total : ℤ
  pub mem_free : ℤ

-- numa_max_node, and what numa_node_size64 returns and stores; the total of no node is -1.
pub record Numa : Type 0 where
  pub max_node : ℕ
  pub node_size : ℕ → MemInfo

pub record PhyNode : Type 0 where
  pub node_id : ℕ
  pub mem_size : ℤ

pub record TotalMemSize : Type 0 where
  pub node_info : List PhyNode
  pub total_mem : ℤ
  pub init : Bool

-- One round of `totalMemSize::get_phy_node_mem`.
unfoldable pub push_node : Numa → ℕ → TotalMemSize → TotalMemSize
push_node numa i s =
    let cur_mem = (numa.node_size i).mem_total in
    if leb_ℤ (pos 0) cur_mem
    then record s {
      node_info = s.node_info ++ record { node_id = i; mem_size = cur_mem } ∷ [];
      total_mem = s.total_mem +ℤ cur_mem;
    }
    else s

-- The loop from node `i` on, with the number of its rounds.
unfoldable pub push_nodes : Numa → ℕ → ℕ → TotalMemSize → TotalMemSize
push_nodes numa zero i s = s
push_nodes numa (suc k) i s = push_nodes numa k (i + 1) (push_node numa i s)

unfoldable pub update : Numa → TotalMemSize → TotalMemSize
update numa s =
    record (push_nodes numa (suc numa.max_node) 0
      (record { node_info = []; total_mem = pos 0; init = s.init })) { init = true }

abbrev pub updated : Numa → TotalMemSize → TotalMemSize
updated numa s = if s.init then s else update numa s

unfoldable pub get_total_mem_size : Numa → TotalMemSize → ℤ × TotalMemSize
get_total_mem_size numa s = ((updated numa s).total_mem, updated numa s)

unfoldable pub size_of : ℕ → List PhyNode → ℤ
size_of j [] = minus_one
size_of j (elem ∷ elems) = if elem.node_id == j then elem.mem_size else size_of j elems

unfoldable pub get_total_mem_size_of : Numa → ℕ → TotalMemSize → ℤ × TotalMemSize
get_total_mem_size_of numa node_id s = (size_of node_id (updated numa s).node_info, updated numa s)

-- `thread_run` tells whether the thread has been in `run`; nothing resets it.
pub record HsUsedMemSize : Type 0 where
  pub total_free : ℤ
  pub total_mem : ℤ
  pub thread_run : Bool
  pub mem_infos : Map ℕ MemInfo

-- One round of `hsUsedMemSize::get_numa_free_space_info`.
unfoldable pub add_node : Numa → ℕ → HsUsedMemSize → HsUsedMemSize
add_node numa i s =
    let minfo = numa.node_size i in
    if eqb_ℤ minfo.mem_total minus_one then s else record s {
      mem_infos = emplace i minfo s.mem_infos;
      total_free = s.total_free +ℤ minfo.mem_free;
      total_mem = s.total_mem +ℤ minfo.mem_total;
    }

unfoldable pub add_nodes : Numa → ℕ → ℕ → HsUsedMemSize → HsUsedMemSize
add_nodes numa zero i s = s
add_nodes numa (suc k) i s = add_nodes numa k (i + 1) (add_node numa i s)

abbrev pub cleared : HsUsedMemSize → HsUsedMemSize
cleared s = record s { total_free = pos 0; total_mem = pos 0; mem_infos = [] }

unfoldable pub reflesh : Numa → HsUsedMemSize → HsUsedMemSize
reflesh numa s = add_nodes numa (suc numa.max_node) 0 (cleared s)

-- `run` up to its loop, each round of which is a `reflesh`.
unfoldable pub run : Numa → HsUsedMemSize → HsUsedMemSize
run numa s = record (reflesh numa s) { thread_run = true }

abbrev pub refleshed : Numa → HsUsedMemSize → HsUsedMemSize
refleshed numa s = if s.thread_run then s else reflesh numa s

unfoldable pub get_used_mem_size : Numa → HsUsedMemSize → ℤ × HsUsedMemSize
get_used_mem_size numa s = let s' = refleshed numa s in (s'.total_mem -ℤ s'.total_free, s')

abbrev pub used_of : Option MemInfo → Result ℤ
used_of none = err invalid_node
used_of (some minfo) = ok (minfo.mem_total -ℤ minfo.mem_free)

unfoldable pub get_used_mem_size_of : Numa → ℕ → HsUsedMemSize → Result ℤ × HsUsedMemSize
get_used_mem_size_of numa node_id s =
    let s' = refleshed numa s in (used_of (find node_id s'.mem_infos), s')
