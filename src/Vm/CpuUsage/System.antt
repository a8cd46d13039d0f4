-- ===== src/Vm/CpuUsage/System.antt =====
-- The system's times (`CpuUsage::refresh_system` and the arithmetic of the percentages).
use libvsf.Prelude.{ℕ, zero, suc, ◌+◌, ◌-◌, ◌*◌, ◌/◌, ◌^◌, ◌≤◌, ◌<◌, ◌≡◌, refl, some, none, arith}
use libvsf.Prelude.Word.{u32}
use libvsf.Prelude.Exec.{ok, err, file_open_failed, ◌>>◌}
use libvsf.Vm.CpuUsage.Data.{Task, Stat, ThreadCpuUsageData, CpuUsage}
use libvsf.Vm.CpuUsage.Refresh.{refresh_system, total_time, percent}

-- All the time that a line of /proc/stat accounts for.
abbrev pub sum_of : Stat → ℕ
sum_of t = t.user_time + t.nice_time + t.sys_time + t.idle_time

-- The state keeps the times in 32 bits. After two readings, whatever came before them, the two deltas
-- are the true differences of the readings, if each difference fits 32 bits and the sums 64.
pub refresh_system_delta :
    (t t' : Stat) (s : CpuUsage)
    → sum_of t ≤ sum_of t'
    → sum_of t' < sum_of t + 2 ^ 32
    → sum_of t' < 2 ^ 64
    → t.idle_time ≤ t'.idle_time
    → t'.idle_time < t.idle_time + 2 ^ 32
    → let (r, s') = (refresh_system (some t) >> refresh_system (some t')) s in
      (r ≡ ok tt)
      × (s'.total_cpu_time_delta ≡ sum_of t' - sum_of t)
      × (s'.idle_time_delta ≡ t'.idle_time - t.idle_time)
unfolding refresh_system total_time
refresh_system_delta t t' s le fits wide idle_le idle_fits = (refl, omega arith, omega arith)

-- If /proc/stat cannot be opened, the call throws and changes nothing.
pub refresh_system_failed : (s : CpuUsage) → refresh_system none s ≡ (err file_open_failed, s)
unfolding refresh_system
refresh_system_failed s = refl

div-le : (a b k : ℕ) → 0 < b → a ≤ k * b → a / b ≤ k
div-le a b k h le = grind arith

le-mul : (a n : ℕ) → 0 < n → a ≤ a * n
le-mul a n h = grind arith

u32-mul : (a n : ℕ) → a * n < 2 ^ 32 → u32 (u32 a * n) ≡ a * n
u32-mul a zero h = omega arith
u32-mul a (suc k) h =
    let small : u32 a ≡ a = omega (arith, le-mul a (suc k)) in rw small (omega arith)

-- The percentage is at most 100 where nothing wraps and the ticks are no more than one processor's.
percent-le :
    (ticks n sys : ℕ)
    → 0 < sys
    → ticks * n ≤ sys
    → ticks * 100 * n < 2 ^ 32
    → percent ticks n sys ≤ 100
unfolding percent
percent-le ticks n sys h le fits =
    rw (u32-mul (ticks * 100) n fits) (div-le (ticks * 100 * n) sys 100 h (omega arith))

-- The ticks that a thread has had since its last reading.
abbrev pub ticks_since : Task → ThreadCpuUsageData → ℕ
ticks_since task d = task.utime + task.stime - d.proctime_new
