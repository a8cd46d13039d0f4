-- ===== src/Host/HsCpuUsage.antt =====
-- src/sysinfo/host/dymatic/hs_cpu_usage.cpp: the CPU use of the host by processor, from two readings of
-- /proc/stat. A reading is an argument: what fgets gives, or `none` where the file cannot be opened.
-- Times are taken to fit a `long long`; NaN is `none`.
mod Tests
pub mod Usage
use libvsf.Prelude.{
  ℕ, zero, suc, ◌+◌, ◌-◌, ◌*◌, Bool, true, false, Option, none, some, List, [], ◌∷◌, ◌++◌, ◌==◌,
  if◌then◌else◌, length, take, drop,
}
use libvsf.Prelude.Int.{ℤ, pos, negsuc, minus_one, ◌+ℤ◌, ◌-ℤ◌, eqb_ℤ}
use libvsf.Prelude.Double.{Double}
use libvsf.Prelude.Exec.{
  Result, ok, err, null_pointer, Exec, pure, gets, modify, of_result, ◌>>=◌, ◌>>◌,
}
use libvsf.Container.Map.{Map, find, emplace}
use libvsf.Utils.StrTools.{Text, split, eq_text}
use libvsf.Utils.Numbers.{digits_from}
use libvsf.Host.NodeCpu.{int_less}

-- The `atoll` of the file itself; a number has no white space before it.
unfoldable pub atoll : Text → ℤ
atoll [] = pos 0
atoll (c ∷ cs) = if c == b'-' then pos 0 -ℤ pos (digits_from 0 cs) else pos (digits_from 0 (c ∷ cs))

pub record CpuTimeInfo : Type 0 where
  pub cpu_id : ℤ
  pub cpu_time : ℤ
  pub cpu_idle_time : ℤ

pub record PhyCpuInfo : Type 0 where
  pub cpu_num : ℕ
  pub total_cpu_time : ℤ
  pub total_cpu_idle_time : ℤ
  pub cpu_time_infos : List CpuTimeInfo

-- The loop over the tokens of a line behind the first, with `index`, `time` and `idle_time`.
unfoldable pub add_times : ℕ → ℤ → ℤ → List Text → ℤ × ℤ
add_times index time idle_time [] = (time, idle_time)
add_times index time idle_time (token ∷ tokens) =
    add_times (index + 1) (time +ℤ atoll token) (if index + 1 == 4 then atoll token else idle_time)
      tokens

-- "cpu"
abbrev pub cpu : Text
cpu = b'c' ∷ b'p' ∷ b'u' ∷ []

abbrev pub time_info : List Text → CpuTimeInfo
time_info [] = record { cpu_id = pos 0; cpu_time = pos 0; cpu_idle_time = pos 0 }
time_info (token ∷ tokens) =
    let (time, idle_time) = add_times 0 (pos 0) (pos 0) tokens in
    record { cpu_id = atoll (drop 3 token); cpu_time = time; cpu_idle_time = idle_time }

-- The loop over the lines behind the first. A line that begins with "cpu" has a token.
unfoldable pub read_infos : List Text → List CpuTimeInfo
read_infos [] = []
read_infos (buf ∷ bufs) =
    let rest = read_infos bufs in
    if eq_text (take 3 buf) cpu then time_info (split buf 32 []) ∷ rest else rest

abbrev pub phy_cpu_info : List Text → List CpuTimeInfo → PhyCpuInfo
phy_cpu_info tokens infos =
    let (time, idle_time) = add_times 0 (pos 0) (pos 0) tokens in
    record {
      cpu_num = length infos;
      total_cpu_time = time;
      total_cpu_idle_time = idle_time;
      cpu_time_infos = infos;
    }

-- The first line by its tokens; without one strtok has returned a null pointer.
unfoldable pub first_line : List Text → List CpuTimeInfo → Result (Option PhyCpuInfo)
first_line [] infos = err null_pointer
first_line (token ∷ tokens) infos =
    if eq_text token cpu then ok (some (phy_cpu_info tokens infos)) else ok none

-- `none` is the result -1.
unfoldable pub get_phy_cpu : Option (List Text) → Result (Option PhyCpuInfo)
get_phy_cpu none = err null_pointer
get_phy_cpu (some []) = ok none
get_phy_cpu (some (buf ∷ bufs)) = first_line (split buf 32 []) (read_infos bufs)

-- `cpu_num` is never written.
pub record HsCpuUsage (F : Type 0) : Type 0 where
  pub total_cpu_usage : F
  pub int_time_us : ℤ
  pub relax_time_us : ℤ
  pub cpu_usages : Map ℤ F
  pub init : Bool

module _ {F : Type 0} where
  unfoldable pub set_cpu_usage_collect_interval_us : ℤ → HsCpuUsage F → HsCpuUsage F
  set_cpu_usage_collect_interval_us time_us s = record s { int_time_us = time_us }

  unfoldable pub set_sleep_interval_us : ℤ → HsCpuUsage F → HsCpuUsage F
  set_sleep_interval_us time_us s = record s { relax_time_us = time_us }

module _ (d : Double) where
  open d use {F, of_ℕ, sub, div}

  -- An integer as a `double`.
  abbrev pub of_ℤ : ℤ → F
  of_ℤ (pos n) = of_ℕ n
  of_ℤ (negsuc n) = sub (of_ℕ 0) (of_ℕ (suc n))

  -- 1 - (double)(idle1 - idle2) / (time1 - time2)
  abbrev pub usage_of : ℤ → ℤ → ℤ → ℤ → F
  usage_of idle1 idle2 time1 time2 =
      sub (of_ℕ 1) (div (of_ℤ (idle1 -ℤ idle2)) (of_ℤ (time1 -ℤ time2)))

  abbrev pub usage_between : CpuTimeInfo → CpuTimeInfo → F
  usage_between info1 info2 =
      usage_of info1.cpu_idle_time info2.cpu_idle_time info1.cpu_time info2.cpu_time

  -- The loop over the processors, of which both readings have as many. `none` is the result -1.
  unfoldable pub usages_of : List CpuTimeInfo → List CpuTimeInfo → Map ℤ F → Option (Map ℤ F)
  usages_of (info1 ∷ infos1) (info2 ∷ infos2) usages = elim (eqb_ℤ info1.cpu_id info2.cpu_id) [
    | true ↦ usages_of infos1 infos2 (emplace info1.cpu_id (usage_between info1 info2) usages)
    | false ↦ none
  ]
  usages_of _ _ usages = some usages

  abbrev pub store : F → Option (Map ℤ F) → Exec (HsCpuUsage F) ℤ
  store total none s = (ok minus_one, s)
  store total (some usages) s =
      (ok (pos 0), record s { total_cpu_usage = total; cpu_usages = usages; init = true })

  unfoldable pub compare_infos : PhyCpuInfo → PhyCpuInfo → Exec (HsCpuUsage F) ℤ
  compare_infos ret1 ret2 s =
      let total =
        usage_of ret1.total_cpu_idle_time ret2.total_cpu_idle_time ret1.total_cpu_time
          ret2.total_cpu_time in
      if ret1.cpu_num == ret2.cpu_num
      then store total (usages_of ret1.cpu_time_infos ret2.cpu_time_infos []) s
      else (ok minus_one, s)

  abbrev pub construct : HsCpuUsage F
  construct = record {
    total_cpu_usage = d.minus_one;
    int_time_us = pos 300000;
    relax_time_us = pos 1000000;
    cpu_usages = [];
    init = false;
  }

  unfoldable pub collect_cpu_usage : Option (List Text) → Option (List Text) → Exec (HsCpuUsage F) ℤ
  collect_cpu_usage stat1 stat2 s = elim (get_phy_cpu stat1) [
    | err e ↦ (err e, s)
    | ok none ↦ (ok minus_one, s)
    | ok (some ret1) ↦ elim (get_phy_cpu stat2) [
      | err e ↦ (err e, s)
      | ok none ↦ (ok minus_one, s)
      | ok (some ret2) ↦ compare_infos ret1 ret2 s
    ]
  ]

  unfoldable pub refresh : Option (List Text) → Option (List Text) → Exec (HsCpuUsage F) (Unit {0})
  refresh stat1 stat2 = collect_cpu_usage stat1 stat2 >> pure tt

  abbrev pub refreshed : Option (List Text) → Option (List Text) → Exec (HsCpuUsage F) (Unit {0})
  refreshed stat1 stat2 s = if s.init then (ok tt, s) else refresh stat1 stat2 s

  unfoldable pub get_cpu_usage_of :
      Option (List Text) → Option (List Text) → ℤ → Exec (HsCpuUsage F) (Option F)
  get_cpu_usage_of stat1 stat2 cpuid = refreshed stat1 stat2 >> gets (λ s. find cpuid s.cpu_usages)

  unfoldable pub get_cpu_usage : Option (List Text) → Option (List Text) → Exec (HsCpuUsage F) F
  get_cpu_usage stat1 stat2 = refreshed stat1 stat2 >> gets (λ s. s.total_cpu_usage)
