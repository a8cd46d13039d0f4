-- ===== src/Migration.antt =====
-- src/exec/cpu_mig.cpp: which processors the threads are to run on, recorded and then carried out.
mod Tests
pub mod Masks
use libvsf.Prelude.{
  ℕ, ◌+◌, ◌*◌, ◌/◌, Bool, true, false, List, [], ◌∷◌, ltb, if◌then◌else◌, length, set, replicate,
}
use libvsf.Prelude.Exec.{Result, ok, err, cpu_alloc_failed, out_of_bounds, Exec}
use libvsf.Container.Order.{nat_less}
use libvsf.Container.Map.{Map, put}
use libvsf.Container.Set.{Set}

pub record CpuMig : Type 0 where
  pub cpu_migs : Map ℕ (Set ℕ)
  pub cpu_num : ℕ

unfoldable pub set_cpu_mig : ℕ → Set ℕ → CpuMig → CpuMig
set_cpu_mig pid cpu_ids s = record s { cpu_migs = put pid cpu_ids s.cpu_migs }

-- A mask is the list of its bits. CPU_ALLOC(n) has whole words of 64.
abbrev pub Mask : Type 0
Mask = List Bool

abbrev pub cpu_alloc_bits : ℕ → ℕ
cpu_alloc_bits n = (n + 63) / 64 * 64

-- CPU_SET leaves out the processors from 1024 on; it does not know how much has been allocated.
unfoldable pub cpu_set : ℕ → Mask → Result Mask
cpu_set id mask =
    if ltb id 1024
    then if ltb id (length mask) then ok (set mask id true) else err out_of_bounds
    else ok mask

unfoldable pub set_all : List ℕ → Mask → Result Mask
set_all [] mask = ok mask
set_all (id ∷ ids) mask = elim (cpu_set id mask) [ ok m ↦ set_all ids m | err e ↦ err e ]

-- The calls of sched_setaffinity, in their order; a failure of one is only logged.
unfoldable pub affinities : ℕ → Map ℕ (Set ℕ) → Result (List (ℕ × Mask))
affinities bits [] = ok []
affinities bits ((pid, ids) ∷ m) = elim (set_all ids (replicate bits false)) [
  | err e ↦ err e
  | ok mask ↦ elim (affinities bits m) [ err e ↦ err e | ok rest ↦ ok ((pid, mask) ∷ rest) ]
]

-- `allocates` is whether CPU_ALLOC returns memory.
unfoldable pub exec_cpu_mig : Bool → Exec CpuMig (List (ℕ × Mask))
exec_cpu_mig false s = (err cpu_alloc_failed, s)
exec_cpu_mig true s = elim (affinities (cpu_alloc_bits s.cpu_num) s.cpu_migs) [
  | err e ↦ (err e, s)
  | ok calls ↦ (ok calls, record s { cpu_migs = [] })
]
