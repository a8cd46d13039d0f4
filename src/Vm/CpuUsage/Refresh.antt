-- ===== src/Vm/CpuUsage/Refresh.antt =====
-- `CpuUsage::refresh` and its parts (cpu_usage.cpp).
use libvsf.Prelude.{
  ℕ, ◌+◌, ◌*◌, ◌/◌, Bool, true, false, ◌||◌, Option, none, some, List, [], ◌∷◌, ◌++◌, ltb, leb,
  ◌==◌, if◌then◌else◌, length,
}
use libvsf.Prelude.Word.{u32, u64, sub32, sub64}
use libvsf.Prelude.Int.{ℤ, pos, minus_one, to_int, to_uint}
use libvsf.Prelude.Exec.{
  Result, ok, err, file_open_failed, open_proc_failed, division_by_zero, Exec, pure, gets, or_raise,
  modify, ◌>>=◌, ◌>>◌,
}
use libvsf.Container.Order.{nat_less}
use libvsf.Container.Map.{Map, put, emplace, erase, index, keys}
use libvsf.Vm.CpuUsage.Data.{
  Task, Proc, Stat, ProcFs, ThreadCpuUsageData, new_thread, Call, CpuUsage,
}

unfoldable pub get_total_cpu_time_delta : CpuUsage → ℕ
get_total_cpu_time_delta s = if s.total_cpu_time_old == 0 then 0 else s.total_cpu_time_delta

-- The sum is cut to the width of the field that holds it.
unfoldable pub total_time : Stat → ℕ
total_time t = u32 (u64 (t.user_time + t.nice_time + t.sys_time + t.idle_time))

unfoldable pub record_stat : Stat → CpuUsage → CpuUsage
record_stat t s = record s {
  total_cpu_time_old = s.total_cpu_time_new;
  total_cpu_time_new = total_time t;
  total_cpu_time_delta = sub32 (total_time t) s.total_cpu_time_new;
  idle_time_old = s.idle_time_new;
  idle_time_new = u32 t.idle_time;
  idle_time_delta = sub32 (u32 t.idle_time) s.idle_time_new;
}

unfoldable pub refresh_system : Option Stat → Exec CpuUsage (Unit {0})
unfolding record_stat
refresh_system stat = do t ← or_raise stat file_open_failed; modify (record_stat t)

-- The two loops over the queues.
unfoldable pub start_all : List ℕ → Map ℕ ℤ → Map ℕ ℤ
start_all [] m = m
start_all (pid ∷ pids) m = start_all pids (emplace pid (pos 0) m)

unfoldable pub stop_all {ℓ} : {V : Type ℓ} → List ℕ → Map ℕ V → Map ℕ V
stop_all [] m = m
stop_all (pid ∷ pids) m = stop_all pids (erase pid m)

unfoldable pub refresh_watching : CpuUsage → CpuUsage
refresh_watching s = record s {
  process_cpu_usage_data =
      stop_all s.to_stop_watching (start_all s.to_start_watching s.process_cpu_usage_data);
  to_start_watching = [];
  to_stop_watching = [];
}

-- The use of `sys` ticks of `cpu_num` processors in percent, in `unsigned int`s.
unfoldable pub percent : ℕ → ℕ → ℕ → ℕ
percent ticks n sys = u32 (u32 (ticks * 100) * n) / sys

-- `ThreadCpuUsageData::update`, where the singleton has `n` processors and the delta `sys`.
unfoldable pub update : ℕ → ℕ → Task → ThreadCpuUsageData → ThreadCpuUsageData
update n sys task d = record d {
  processor = pos task.processor;
  tgid = pos task.tgid;
  proctime_new = time;
  proctime_old = old;
  cpu_usage = if sys == 0 then pos 0 else to_int (percent (u32 (sub64 time old)) n sys);
}
  where
    time : ℕ
    time = u64 (task.utime + task.stime)

    old : ℕ
    old = if d.proctime_new == 0 then time else d.proctime_new

unfoldable pub clear_data : ThreadCpuUsageData → ThreadCpuUsageData
clear_data d = record d {
  proctime_new = 0;
  proctime_old = 0;
  cpu_usage = minus_one;
  processor = minus_one;
  tgid = minus_one;
}

abbrev pub invalidate : ThreadCpuUsageData → ThreadCpuUsageData
invalidate d = record d { valid = false }

abbrev pub clear_if_invalid : ThreadCpuUsageData → ThreadCpuUsageData
clear_if_invalid d = if d.valid then d else clear_data d

unfoldable pub map_values {ℓ κ} : {V : Type ℓ} {W : Type κ} → (V → W) → Map ℕ V → Map ℕ W
map_values f [] = []
map_values f ((k, v) ∷ m) = (k, f v) ∷ map_values f m

-- One round of the loop over the tasks of process `pid`.
unfoldable pub read_task : ℕ → Task → CpuUsage → CpuUsage
read_task pid task s = record s {
  thread_cpu_usage_data = put task.tid (record thread { valid = true }) s.thread_cpu_usage_data;
  process_cpu_usage_data =
      put pid
        (to_int (
          to_uint (index pid (pos 0) s.process_cpu_usage_data)
          + sub64 thread.proctime_new thread.proctime_old))
        s.process_cpu_usage_data;
}
  where
    thread : ThreadCpuUsageData
    thread =
        update s.cpu_num (get_total_cpu_time_delta s) task
          (index task.tid new_thread s.thread_cpu_usage_data)

unfoldable pub read_tasks : ℕ → List Task → CpuUsage → CpuUsage
read_tasks pid [] s = s
read_tasks pid (task ∷ tasks) s = read_tasks pid tasks (read_task pid task s)

-- The value that a process has when its `cnt` tasks are read; the division by `cnt` may be by zero.
unfoldable pub process_usage : CpuUsage → ℕ → ℕ → Result ℤ
process_usage s ticks cnt =
    if s.total_cpu_time_old == 0 || s.total_cpu_time_delta == 0
    then ok (pos 0)
    else if u32 cnt == 0
    then err division_by_zero
    else ok (to_int (percent (ticks / u32 cnt) s.cpu_num s.total_cpu_time_delta))

abbrev pub set_process : ℕ → ℤ → CpuUsage → CpuUsage
set_process pid v s = record s { process_cpu_usage_data = put pid v s.process_cpu_usage_data }

-- The assignment of the computed value, unless the division faults.
unfoldable pub store_usage : ℕ → Result ℤ → Exec CpuUsage (Unit {0})
store_usage pid (ok v) s = (ok tt, set_process pid v s)
store_usage pid (err e) s = (err e, s)

-- One round of the loop over the processes.
unfoldable pub read_proc : Proc → Exec CpuUsage (Unit {0})
unfolding store_usage
read_proc p = do
  modify (set_process p.tid (pos 0))
  modify (read_tasks p.tid p.tasks)
  ticks ← gets (λ s. to_uint (index p.tid (pos 0) s.process_cpu_usage_data))
  usage ← gets (λ s. process_usage s ticks (length p.tasks))
  store_usage p.tid usage

unfoldable pub read_procs : List Proc → Exec CpuUsage (Unit {0})
read_procs [] = pure tt
read_procs (p ∷ ps) = read_proc p >> read_procs ps

unfoldable pub calls : Option ℕ → Map ℕ ThreadCpuUsageData → List Call
calls none m = []
calls (some f) [] = []
calls (some f) ((tid, d) ∷ m) =
    record { callback = f; pid = d.tgid; tid = tid; cpu_usage = d.cpu_usage } ∷ calls (some f) m

unfoldable pub map_threads : (ThreadCpuUsageData → ThreadCpuUsageData) → CpuUsage → CpuUsage
map_threads f s = record s { thread_cpu_usage_data = map_values f s.thread_cpu_usage_data }

-- The end of the refresh: the data of what has not been seen is erased, and the callback is called.
abbrev pub report : Exec CpuUsage (List Call)
report = do
  modify (map_threads clear_if_invalid)
  gets (λ s. calls s.callback_func s.thread_cpu_usage_data)

unfoldable pub refresh_thread : (List ℕ → Option (List Proc)) → Exec CpuUsage (List Call)
refresh_thread openproc = do
  pids ← gets (λ s. keys s.process_cpu_usage_data ++ 0 ∷ [])
  procs ← or_raise (openproc pids) open_proc_failed
  modify (map_threads invalidate)
  read_procs procs
  report

unfoldable pub has_data : CpuUsage → Bool
has_data s = leb 2 s.has_data_cnt

abbrev pub count_refresh : CpuUsage → CpuUsage
count_refresh s = if ltb s.has_data_cnt 2 then record s { has_data_cnt = s.has_data_cnt + 1 } else s

abbrev pub finish : List Call → Exec CpuUsage (List Call)
finish made = do modify count_refresh; pure made

unfoldable pub refresh : ProcFs → Exec CpuUsage (List Call)
refresh fs = do
  refresh_system fs.stat
  modify refresh_watching
  made ← refresh_thread fs.openproc
  finish made
