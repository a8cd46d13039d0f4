-- ===== src/Host/Memory/Tests.antt =====
-- The theorem on the used memory applied to three nodes, one of which has gone.
use libvsf.Prelude.{ℕ, zero, suc, ◌≡◌, refl, false, ◌&&◌, leb, if◌then◌else◌, []}
use libvsf.Prelude.Int.{pos, minus_one, ◌+ℤ◌, ◌-ℤ◌, eqb_ℤ}
use libvsf.Prelude.Exec.{ok, err, invalid_node}
use libvsf.Host.Memory.{MemInfo, Numa, HsUsedMemSize, get_used_mem_size, get_used_mem_size_of}
use libvsf.Host.Memory.Sums.{known, used, sum_used, get_used_mem_size_lem}

abbrev size : ℕ → MemInfo
size zero = record { mem_total = pos 100; mem_free = pos 40 }
size (suc zero) = record { mem_total = minus_one; mem_free = pos 0 }
size (suc (suc n)) = record { mem_total = pos 50; mem_free = pos 20 }

abbrev three_nodes : Numa
three_nodes = record { max_node = 2; node_size = size }

abbrev at_first : HsUsedMemSize
at_first = record { total_free = pos 0; total_mem = pos 0; thread_run = false; mem_infos = [] }

sum-three : sum_used three_nodes 3 0 ≡ pos 90
unfolding ◌+ℤ◌ ◌-ℤ◌ eqb_ℤ
sum-three = refl

get_used_mem_size_lem_example :
    ((get_used_mem_size three_nodes at_first).0 ≡ sum_used three_nodes 3 0)
    × ((get_used_mem_size_of three_nodes 2 at_first).0
        ≡ (if leb 2 2 && known three_nodes 2 then ok (used three_nodes 2) else err invalid_node))
get_used_mem_size_lem_example = get_used_mem_size_lem three_nodes at_first 2 refl
