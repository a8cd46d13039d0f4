-- ===== src/Vm/CpuUsage/Data.antt =====
-- The state of `CpuUsage` and the operations that set its fields (cpu_usage.h, cpu_usage.cpp).
use libvsf.Prelude.{ℕ, Bool, false, Option, none, List, [], ◌∷◌, ◌++◌}
use libvsf.Prelude.Int.{ℤ, minus_one}
use libvsf.Container.Order.{nat_less}
use libvsf.Container.Map.{Map}

abbrev pub default_interval_ms : ℕ
default_interval_ms = 1000

-- What `readtask` and `readproc` fill in of a `proc_t`.
pub record Task : Type 0 where
  pub tid : ℕ
  pub tgid : ℕ
  pub processor : ℕ
  pub utime : ℕ
  pub stime : ℕ

pub record Proc : Type 0 where
  pub tid : ℕ
  pub tasks : List Task

-- The first line of /proc/stat, as far as it is read.
pub record Stat : Type 0 where
  pub user_time : ℕ
  pub nice_time : ℕ
  pub sys_time : ℕ
  pub idle_time : ℕ

-- The system at the time of a refresh; `none` where a call fails. `openproc` is given the array of
-- process ids with its closing zero.
pub record ProcFs : Type 0 where
  pub stat : Option Stat
  pub openproc : List ℕ → Option (List Proc)

pub record ThreadCpuUsageData : Type 0 where
  pub valid : Bool
  pub proctime_new : ℕ
  pub proctime_old : ℕ
  pub cpu_usage : ℤ
  pub processor : ℤ
  pub tgid : ℤ

abbrev pub new_thread : ThreadCpuUsageData
new_thread = record {
  valid = false;
  proctime_new = 0;
  proctime_old = 0;
  cpu_usage = minus_one;
  processor = minus_one;
  tgid = minus_one;
}

-- A callback is known by a number; a call of it is the arguments that it is given.
pub record Call : Type 0 where
  pub callback : ℕ
  pub pid : ℤ
  pub tid : ℕ
  pub cpu_usage : ℤ

pub record CpuUsage : Type 0 where
  pub thread_cpu_usage_data : Map ℕ ThreadCpuUsageData
  pub process_cpu_usage_data : Map ℕ ℤ
  pub to_start_watching : List ℕ
  pub to_stop_watching : List ℕ
  pub total_cpu_time_new : ℕ
  pub total_cpu_time_old : ℕ
  pub total_cpu_time_delta : ℕ
  pub idle_time_old : ℕ
  pub idle_time_new : ℕ
  pub idle_time_delta : ℕ
  pub has_data_cnt : ℕ
  pub interval_ms : ℕ
  pub callback_func : Option ℕ
  pub cpu_num : ℕ

-- The constructor, on a machine of `cpu_num` processors.
unfoldable pub init : ℕ → CpuUsage
init n = record {
  thread_cpu_usage_data = [];
  process_cpu_usage_data = [];
  to_start_watching = [];
  to_stop_watching = [];
  total_cpu_time_new = 0;
  total_cpu_time_old = 0;
  total_cpu_time_delta = 0;
  idle_time_old = 0;
  idle_time_new = 0;
  idle_time_delta = 0;
  has_data_cnt = 0;
  interval_ms = default_interval_ms;
  callback_func = none;
  cpu_num = n;
}

unfoldable pub set_interval : ℕ → CpuUsage → CpuUsage
set_interval interval s = record s { interval_ms = interval }

unfoldable pub set_callback : Option ℕ → CpuUsage → CpuUsage
set_callback f s = record s { callback_func = f }

unfoldable pub clear_param : CpuUsage → CpuUsage
clear_param s = record s { interval_ms = default_interval_ms; callback_func = none }

unfoldable pub start_watching : ℕ → CpuUsage → CpuUsage
start_watching pid s = record s { to_start_watching = s.to_start_watching ++ pid ∷ [] }

unfoldable pub stop_watching : ℕ → CpuUsage → CpuUsage
stop_watching pid s = record s { to_stop_watching = s.to_stop_watching ++ pid ∷ [] }

unfoldable pub clear : CpuUsage → CpuUsage
clear s = record s {
  thread_cpu_usage_data = [];
  process_cpu_usage_data = [];
  to_start_watching = [];
  to_stop_watching = [];
  total_cpu_time_new = 0;
  total_cpu_time_old = 0;
  total_cpu_time_delta = 0;
  idle_time_old = 0;
  idle_time_new = 0;
  idle_time_delta = 0;
  has_data_cnt = 0;
}
