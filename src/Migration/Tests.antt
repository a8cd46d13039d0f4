-- ===== src/Migration/Tests.antt =====
-- The theorems on migration applied to one thread.
use libvsf.Prelude.{ℕ, ◌≡◌, List, [], ◌∷◌, arith, true}
use libvsf.Prelude.Exec.{ok}
use libvsf.Migration.{CpuMig, Mask, cpu_alloc_bits, exec_cpu_mig}
use libvsf.Migration.Masks.{Sends, exec_cpu_mig-Sends}

abbrev moved : CpuMig
moved = record { cpu_migs = (7, 0 ∷ 3 ∷ []) ∷ []; cpu_num = 4 }

exec_cpu_mig-Sends_example :
    (calls : List (ℕ × Mask)) × (exec_cpu_mig true moved
      ≡ (ok calls, record moved { cpu_migs = [] }))
    × Sends (cpu_alloc_bits moved.cpu_num) moved.cpu_migs calls
exec_cpu_mig-Sends_example =
    exec_cpu_mig-Sends moved (omega arith) ((omega arith, (omega arith, tt)), tt)
