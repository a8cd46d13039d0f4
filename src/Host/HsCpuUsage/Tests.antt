-- ===== src/Host/HsCpuUsage/Tests.antt =====
-- The theorem on a collection applied to two readings of one processor.
use libvsf.Prelude.{ℕ, ◌-◌, ◌*◌, ◌/◌, ◌≡◌, refl, true, false, some, List, [], ◌∷◌}
use libvsf.Prelude.Int.{ℤ, pos, minus_one, ◌+ℤ◌}
use libvsf.Prelude.Double.{Double}
use libvsf.Prelude.Exec.{ok}
use libvsf.Container.Map.{Map, find}
use libvsf.Utils.StrTools.{Text, split, split_from}
use libvsf.Utils.Numbers.{digits_from}
use libvsf.Host.NodeCpu.{int_less}
use libvsf.Host.HsCpuUsage.{
  PhyCpuInfo, atoll, add_times, read_infos, first_line, get_phy_cpu, usage_of, usage_between,
  construct, collect_cpu_usage,
}
use libvsf.Host.HsCpuUsage.Usage.{same_cpus, info_of, both, collect_cpu_usage_lem}

abbrev whole : Double
whole = record {
  F = ℕ;
  of_ℕ = λ n. n;
  minus_one = 0;
  sub = λ a b. a - b;
  mul = λ a b. a * b;
  div = λ a b. a / b;
  to_int = pos;
}

-- "cpu 4 0 0 1", the same of processor 0, and a line of something else
abbrev stat1 : List Text
stat1 =
    (b'c' ∷ b'p' ∷ b'u' ∷ 32 ∷ b'4' ∷ 32 ∷ b'0' ∷ 32 ∷ b'0' ∷ 32 ∷ b'1' ∷ 10 ∷ [])
    ∷ (b'c' ∷ b'p' ∷ b'u' ∷ b'0' ∷ 32 ∷ b'4' ∷ 32 ∷ b'0' ∷ 32 ∷ b'0' ∷ 32 ∷ b'1' ∷ 10 ∷ [])
    ∷ (b'i' ∷ 10 ∷ [])
    ∷ []

-- "cpu 6 0 0 2", and the same of processor 0
abbrev stat2 : List Text
stat2 =
    (b'c' ∷ b'p' ∷ b'u' ∷ 32 ∷ b'6' ∷ 32 ∷ b'0' ∷ 32 ∷ b'0' ∷ 32 ∷ b'2' ∷ 10 ∷ [])
    ∷ (b'c' ∷ b'p' ∷ b'u' ∷ b'0' ∷ 32 ∷ b'6' ∷ 32 ∷ b'0' ∷ 32 ∷ b'0' ∷ 32 ∷ b'2' ∷ 10 ∷ [])
    ∷ []

abbrev reading : ℤ → ℤ → PhyCpuInfo
reading time idle_time = record {
  cpu_num = 1;
  total_cpu_time = time;
  total_cpu_idle_time = idle_time;
  cpu_time_infos = record { cpu_id = pos 0; cpu_time = time; cpu_idle_time = idle_time } ∷ [];
}

first_reading : get_phy_cpu (some stat1) ≡ ok (some (reading (pos 5) (pos 1)))
unfolding get_phy_cpu first_line read_infos split split_from add_times atoll digits_from ◌+ℤ◌
first_reading = refl

second_reading : get_phy_cpu (some stat2) ≡ ok (some (reading (pos 8) (pos 2)))
unfolding get_phy_cpu first_line read_infos split split_from add_times atoll digits_from ◌+ℤ◌
second_reading = refl

collect_cpu_usage_lem_example :
    (same_cpus (reading (pos 5) (pos 1)).cpu_time_infos (reading (pos 8) (pos 2)).cpu_time_infos
        ≡ true
      → (usages : Map ℤ ℕ) × (collect_cpu_usage whole (some stat1) (some stat2) (construct whole)
          ≡ (
            ok (pos 0),
            record (construct whole) {
              total_cpu_usage = usage_of whole (pos 1) (pos 2) (pos 5) (pos 8);
              cpu_usages = usages;
              init = true;
            },
          ))
        × ((j : ℤ)
            → find j usages
              ≡ both
                  (usage_between whole)
                  (info_of j (reading (pos 5) (pos 1)).cpu_time_infos)
                  (info_of j (reading (pos 8) (pos 2)).cpu_time_infos)))
    × (same_cpus (reading (pos 5) (pos 1)).cpu_time_infos (reading (pos 8) (pos 2)).cpu_time_infos
          ≡ false
        → collect_cpu_usage whole (some stat1) (some stat2) (construct whole)
          ≡ (ok minus_one, construct whole))
collect_cpu_usage_lem_example =
    collect_cpu_usage_lem whole (some stat1) (some stat2) (reading (pos 5) (pos 1))
      (reading (pos 8) (pos 2)) (construct whole) first_reading second_reading
