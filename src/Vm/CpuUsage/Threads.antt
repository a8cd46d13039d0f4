-- ===== src/Vm/CpuUsage/Threads.antt =====
-- The loops over processes and threads (`CpuUsage::refresh_thread`), and whole refreshes.
use libvsf.Prelude.{
  ℕ, ◌^◌, ◌<◌, ◌≡◌, refl, Bool, false, ◌||◌, Option, none, some, List, [], ◌∷◌, ◌++◌, arith, ◌/◌,
  Bool-cases, inl, inr, map_option, ◌==◌, length, All,
}
use libvsf.Prelude.Word.{u32}
use libvsf.Prelude.Int.{ℤ, pos, to_int, to_uint}
use libvsf.Prelude.Exec.{Result, ok, bind-ok}
use libvsf.Container.Order.{nat_less, nat-IsOrder, same_iff}
use libvsf.Container.Map.{Map, find, find-put, keys, index}
use libvsf.Vm.CpuUsage.Data.{Task, Proc, Stat, ProcFs, ThreadCpuUsageData, Call, CpuUsage}
use libvsf.Vm.CpuUsage.Refresh.{
  clear_data, invalidate, clear_if_invalid, map_values, map_threads, read_task, read_tasks,
  process_usage, percent, read_proc, read_procs, calls, report, finish, refresh_watching,
  refresh_system, record_stat, refresh_thread, count_refresh, refresh, set_process,
}

find-map_values {ℓ κ} :
    {V : Type ℓ} {W : Type κ} (f : V → W) (j : ℕ) (m : Map ℕ V)
    → find j (map_values f m) ≡ map_option f (find j m)
unfolding find map_values
find-map_values f j [] = refl
find-map_values f j ((k, v) ∷ m) = ground (arith, find-map_values f j m)

abbrev pub is_valid : Option ThreadCpuUsageData → Bool
is_valid none = false
is_valid (some t) = t.valid

abbrev pub valid_at : ℕ → CpuUsage → Bool
valid_at j s = is_valid (find j s.thread_cpu_usage_data)

-- Whether a thread is among the tasks, and among those of some process.
abbrev pub runs : ℕ → List Task → Bool
runs j [] = false
runs j (t ∷ ts) = (j == t.tid) || runs j ts

abbrev pub reported : ℕ → List Proc → Bool
reported j [] = false
reported j (p ∷ ps) = runs j p.tasks || reported j ps

valid-read_task :
    (pid j : ℕ) (t : Task) (s : CpuUsage)
    → valid_at j (read_task pid t s) ≡ ((j == t.tid) || valid_at j s)
unfolding read_task
valid-read_task pid j t s =
    rw (find-put nat-IsOrder t.tid j _ s.thread_cpu_usage_data)
      (ground (arith, same_iff nat-IsOrder t.tid j))

valid-read_tasks :
    (pid j : ℕ) (ts : List Task) (s : CpuUsage)
    → valid_at j (read_tasks pid ts s) ≡ (runs j ts || valid_at j s)
unfolding read_tasks
valid-read_tasks pid j [] s = refl
valid-read_tasks pid j (t ∷ ts) s =
    ground (arith, valid-read_tasks pid j ts (read_task pid t s), valid-read_task pid j t s)

valid-read_proc :
    (j : ℕ) (p : Proc) (s : CpuUsage)
    → valid_at j (read_proc p s).1 ≡ (runs j p.tasks || valid_at j s)
unfolding read_proc
valid-read_proc j p s =
    ground (arith, valid-read_tasks p.tid j p.tasks (set_process p.tid (pos 0) s))

valid-read_procs :
    (j : ℕ) (ps : List Proc) (s : CpuUsage)
    → (read_procs ps s).0 ≡ ok tt
    → valid_at j (read_procs ps s).1 ≡ (reported j ps || valid_at j s)
unfolding read_procs
valid-read_procs j [] s e = refl
valid-read_procs j (p ∷ ps) s e =
    ground (arith, valid-read_procs j ps (read_proc p s).1, valid-read_proc j p s)

valid-invalidate : (j : ℕ) (s : CpuUsage) → valid_at j (map_threads invalidate s) ≡ false
unfolding map_threads
valid-invalidate j s = ground (arith, find-map_values invalidate j s.thread_cpu_usage_data)

valid-clear : (j : ℕ) (s : CpuUsage) → valid_at j (map_threads clear_if_invalid s) ≡ valid_at j s
unfolding map_threads clear_data
valid-clear j s = ground (arith, find-map_values clear_if_invalid j s.thread_cpu_usage_data)

-- The process ids that a refresh hands to `openproc`.
abbrev pub requested : CpuUsage → List ℕ
requested s = keys (refresh_watching s).process_cpu_usage_data ++ 0 ∷ []

-- A pair whose first part is known.
read_ok :
    (ps : List Proc) (u : CpuUsage)
    → (read_procs ps u).0 ≡ ok tt
    → read_procs ps u ≡ (ok tt, (read_procs ps u).1)
read_ok ps u h = λ i. (h i, (read_procs ps u).1)

abbrev outcome : CpuUsage → Result (List Call) × CpuUsage
outcome s = (ok (calls s.callback_func s.thread_cpu_usage_data), s)

refresh_thread-ok :
    (openproc : List ℕ → Option (List Proc)) (u : CpuUsage) (ps : List Proc)
    → openproc (keys u.process_cpu_usage_data ++ 0 ∷ []) ≡ some ps
    → (read_procs ps (map_threads invalidate u)).0 ≡ ok tt
    → refresh_thread openproc u
      ≡ outcome (map_threads clear_if_invalid (read_procs ps (map_threads invalidate u)).1)
unfolding refresh_thread
refresh_thread-ok openproc u ps e h =
    rw e (bind-ok (read_procs ps) (λ _. report) _ (read_ok ps (map_threads invalidate u) h))

-- The state in which the processes are read: the times and the queues are done, all data is invalid.
abbrev pub before : Stat → CpuUsage → CpuUsage
before t s = map_threads invalidate (refresh_watching (record_stat t s))

abbrev pub after : Stat → List Proc → CpuUsage → CpuUsage
after t ps s = map_threads clear_if_invalid (read_procs ps (before t s)).1

pub refresh-ok :
    (fs : ProcFs) (s : CpuUsage) (t : Stat) (ps : List Proc)
    → fs.stat ≡ some t
    → fs.openproc (requested s) ≡ some ps
    → (read_procs ps (before t s)).0 ≡ ok tt
    → refresh fs s ≡ ((outcome (after t ps s)).0, count_refresh (after t ps s))
unfolding refresh refresh_system
refresh-ok fs s t ps e e' h = rw e (
    bind-ok (refresh_thread fs.openproc) finish _ (
      refresh_thread-ok fs.openproc (refresh_watching (record_stat t s)) ps
        (unfold refresh_watching record_stat in e') h))

-- Each process reported has at least one task, and fewer than 2 ^ 32.
abbrev pub HasTasks : Proc → Type 0
HasTasks p = (0 < length p.tasks) × (length p.tasks < 2 ^ 32)

process_usage-ok :
    (s : CpuUsage) (ticks cnt : ℕ)
    → 0 < cnt
    → cnt < 2 ^ 32
    → (v : ℤ) × (process_usage s ticks cnt ≡ ok v)
unfolding process_usage
process_usage-ok s ticks cnt h k =
    elim (Bool-cases (s.total_cpu_time_old == 0 || s.total_cpu_time_delta == 0)) [
      | inl idle ↦ (pos 0, rw idle refl)
      | inr busy ↦ (
        to_int (percent (ticks / u32 cnt) s.cpu_num s.total_cpu_time_delta),
        rw busy (ground arith),
      )
    ]

read_proc-ok : (p : Proc) (s : CpuUsage) → HasTasks p → (read_proc p s).0 ≡ ok tt
unfolding read_proc
read_proc-ok p s h = ground (
  arith,
  process_usage-ok (read_tasks p.tid p.tasks (set_process p.tid (pos 0) s))
      (to_uint (
        index p.tid (pos 0)
          (read_tasks p.tid p.tasks (set_process p.tid (pos 0) s)).process_cpu_usage_data))
      (length p.tasks) h.0 h.1,
)

pub read_procs-ok : (ps : List Proc) (s : CpuUsage) → All HasTasks ps → (read_procs ps s).0 ≡ ok tt
unfolding read_procs
read_procs-ok [] s h = refl
read_procs-ok (p ∷ ps) s h =
    ground (arith, read_proc-ok p s h.0, read_procs-ok ps (read_proc p s).1 h.1)

-- After the loops a thread is valid exactly if it has been reported.
pub valid-after :
    (t : Stat) (ps : List Proc) (s : CpuUsage) (j : ℕ)
    → All HasTasks ps
    → valid_at j (after t ps s) ≡ reported j ps
valid-after t ps s j h = ground (
  arith,
  valid-clear j (read_procs ps (before t s)).1,
  valid-read_procs j ps (before t s) (read_procs-ok ps (before t s) h),
  valid-invalidate j (refresh_watching (record_stat t s)),
)
