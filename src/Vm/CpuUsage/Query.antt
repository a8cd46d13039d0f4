-- ===== src/Vm/CpuUsage/Query.antt =====
-- The queries of `CpuUsage` (cpu_usage.cpp). A query waits until two refreshes have been made: here
-- `none` stands for a call that has to wait for the refreshing thread.
use libvsf.Prelude.{ℕ, Bool, true, false, ◌||◌, Option, none, some, List, ◌++◌, ◌==◌, if◌then◌else◌}
use libvsf.Prelude.Int.{ℤ, minus_one}
use libvsf.Prelude.Exec.{Exec, pure, gets, ◌>>=◌, ◌>>◌}
use libvsf.Prelude.Double.{Double}
use libvsf.Container.Order.{nat_less}
use libvsf.Container.Map.{find}
use libvsf.Vm.CpuUsage.Data.{ProcFs, ThreadCpuUsageData, Call, CpuUsage}
use libvsf.Vm.CpuUsage.Refresh.{has_data, refresh}

abbrev pub when_ready {ℓ} : {A : Type ℓ} → CpuUsage → A → Option A
when_ready s a = if has_data s then some a else none

-- The arithmetic of `double` is a parameter.
module _ (d : Double) where
  open d use {of_ℕ, sub, mul, div, to_int}

  unfoldable pub get_sys_cpu_usage_without_refresh : CpuUsage → Option ℤ
  get_sys_cpu_usage_without_refresh s = when_ready s (
      if s.total_cpu_time_old == 0 || s.total_cpu_time_delta == 0
      then to_int (of_ℕ 0)
      else to_int (
          mul
            (sub (of_ℕ 1)
              (div (mul (of_ℕ s.idle_time_delta) (of_ℕ 1)) (of_ℕ s.total_cpu_time_delta)))
            (of_ℕ 100)))

abbrev pub of_thread : (ThreadCpuUsageData → ℤ) → Option ThreadCpuUsageData → ℤ
of_thread f none = minus_one
of_thread f (some t) = if t.valid then f t else minus_one

abbrev pub of_process : Option ℤ → ℤ
of_process none = minus_one
of_process (some v) = v

unfoldable pub get_thread_cpu_usage_without_refresh : ℕ → CpuUsage → Option ℤ
get_thread_cpu_usage_without_refresh tid s =
    when_ready s (of_thread (λ t. t.cpu_usage) (find tid s.thread_cpu_usage_data))

unfoldable pub get_process_cpu_usage_without_refresh : ℕ → CpuUsage → Option ℤ
get_process_cpu_usage_without_refresh pid s =
    when_ready s (of_process (find pid s.process_cpu_usage_data))

unfoldable pub get_thread_running_on_cpu_without_refresh : ℕ → CpuUsage → Option ℤ
get_thread_running_on_cpu_without_refresh tid s =
    when_ready s (of_thread (λ t. t.processor) (find tid s.thread_cpu_usage_data))

-- The system at the two refreshes, and whether the refreshing thread runs.
unfoldable pub refresh_twice : Bool → ProcFs → ProcFs → Exec CpuUsage (List Call)
refresh_twice true fs fs' = pure List.[]
refresh_twice false fs fs' = do a ← refresh fs; b ← refresh fs'; pure (a ++ b)

unfoldable pub get_thread_cpu_usage : Bool → ProcFs → ProcFs → ℕ → Exec CpuUsage (Option ℤ)
get_thread_cpu_usage joinable fs fs' tid = do
  refresh_twice joinable fs fs'
  gets (get_thread_cpu_usage_without_refresh tid)

unfoldable pub get_process_cpu_usage : Bool → ProcFs → ProcFs → ℕ → Exec CpuUsage (Option ℤ)
get_process_cpu_usage joinable fs fs' pid = do
  refresh_twice joinable fs fs'
  gets (get_process_cpu_usage_without_refresh pid)

unfoldable pub get_thread_running_on_cpu : Bool → ProcFs → ProcFs → ℕ → Exec CpuUsage (Option ℤ)
get_thread_running_on_cpu joinable fs fs' tid = do
  refresh_twice joinable fs fs'
  gets (get_thread_running_on_cpu_without_refresh tid)

unfoldable pub get_sys_cpu_usage : Double → Bool → ProcFs → ProcFs → Exec CpuUsage (Option ℤ)
get_sys_cpu_usage d joinable fs fs' = do
  refresh_twice joinable fs fs'
  gets (get_sys_cpu_usage_without_refresh d)
