-- ===== src/Vm/CpuUsage/Watching.antt =====
-- Which processes are watched (`CpuUsage::refresh_watching`).
use libvsf.Prelude.{ℕ, ◌≡◌, refl, none, some, List, [], ◌∷◌, arith, if◌then◌else◌}
use libvsf.Prelude.Int.{ℤ, pos}
use libvsf.Container.Order.{nat_less, nat-IsOrder, same_iff}
use libvsf.Container.Map.{Map, find, contains, erase, emplace, find-erase, find-emplace}
use libvsf.Container.Set.{member}
use libvsf.Vm.CpuUsage.Data.{CpuUsage}
use libvsf.Vm.CpuUsage.Refresh.{start_all, stop_all, refresh_watching}

find-start_all :
    (pids : List ℕ) (j : ℕ) (m : Map ℕ ℤ)
    → find j (start_all pids m)
      ≡ (if contains j m then find j m else if member j pids then some (pos 0) else none)
unfolding start_all member
find-start_all [] j m = ground arith
find-start_all (k ∷ ks) j m = ground (
  arith,
  find-start_all ks j (emplace k (pos 0) m),
  find-emplace nat-IsOrder k j (pos 0) m,
  same_iff nat-IsOrder k j,
  same_iff nat-IsOrder j k,
)

pub find-stop_all {ℓ} :
    {V : Type ℓ} (pids : List ℕ) (j : ℕ) (m : Map ℕ V)
    → find j (stop_all pids m) ≡ (if member j pids then none else find j m)
unfolding stop_all member
find-stop_all [] j m = refl
find-stop_all (k ∷ ks) j m = ground (
  arith,
  find-stop_all ks j (erase k m),
  find-erase nat-IsOrder k j m,
  same_iff nat-IsOrder k j,
  same_iff nat-IsOrder j k,
)

-- Afterwards a process has an entry unless it was to be stopped. An entry from before keeps its
-- value, also if it was to be started again; a new one is 0. Both queues are empty.
pub refresh_watching_lem :
    (s : CpuUsage)
    → let s' = refresh_watching s in
      ((j : ℕ)
        → find j s'.process_cpu_usage_data ≡ (
            if member j s.to_stop_watching
            then none
            else if contains j s.process_cpu_usage_data
            then find j s.process_cpu_usage_data
            else if member j s.to_start_watching
            then some (pos 0)
            else none))
      × (s'.to_start_watching ≡ [])
      × (s'.to_stop_watching ≡ [])
unfolding refresh_watching
refresh_watching_lem s = (
  λ j. simp find-stop_all (rw (find-start_all s.to_start_watching j s.process_cpu_usage_data)),
  refl,
  refl,
)
