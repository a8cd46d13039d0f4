-- ===== src/Vm/CpuUsage/Progress.antt =====
-- What a refresh does as a whole, when it throws, and when a query gets an answer.
use libvsf.Prelude.{
  ℕ, ◌+◌, ◌≡◌, refl, ap, true, false, some, List, [], ◌∷◌, ◌++◌, arith, if◌then◌else◌, All, ltb,
}
use libvsf.Prelude.Int.{ℤ, pos}
use libvsf.Prelude.Exec.{ok}
use libvsf.Vm.CpuUsage.Data.{Task, Proc, Stat, ProcFs, Call, CpuUsage}
use libvsf.Vm.CpuUsage.Refresh.{
  map_threads, read_task, read_tasks, read_proc, read_procs, refresh_watching, record_stat,
  count_refresh, refresh, has_data, set_process,
}
use libvsf.Vm.CpuUsage.Query.{
  of_thread, refresh_twice, get_thread_cpu_usage, get_thread_cpu_usage_without_refresh,
}
use libvsf.Vm.CpuUsage.Threads.{
  valid_at, reported, requested, before, after, HasTasks, refresh-ok, read_procs-ok, valid-after,
}
use libvsf.Container.Order.{nat_less}
use libvsf.Container.Map.{find}

-- A system on which every call of a refresh works: `openproc` lists some processes for any request,
-- each with its tasks.
pub record Healthy (fs : ProcFs) : Type 0 where
  pub reading : Stat
  pub procs : List ℕ → List Proc
  pub stat_read : fs.stat ≡ some reading
  pub proc_read : (pids : List ℕ) → fs.openproc pids ≡ some (procs pids)
  pub tasks_read : (pids : List ℕ) → All HasTasks (procs pids)

cnt-read_tasks :
    (pid : ℕ) (ts : List Task) (s : CpuUsage) → (read_tasks pid ts s).has_data_cnt ≡ s.has_data_cnt
unfolding read_tasks read_task
cnt-read_tasks pid [] s = refl
cnt-read_tasks pid (t ∷ ts) s = cnt-read_tasks pid ts (read_task pid t s)

cnt-read_proc : (p : Proc) (s : CpuUsage) → (read_proc p s).1.has_data_cnt ≡ s.has_data_cnt
unfolding read_proc
cnt-read_proc p s = ground (arith, cnt-read_tasks p.tid p.tasks (set_process p.tid (pos 0) s))

cnt-read_procs : (ps : List Proc) (s : CpuUsage) → (read_procs ps s).1.has_data_cnt ≡ s.has_data_cnt
unfolding read_procs
cnt-read_procs [] s = refl
cnt-read_procs (p ∷ ps) s = ground (arith, cnt-read_procs ps (read_proc p s).1, cnt-read_proc p s)

cnt-after :
    (t : Stat) (ps : List Proc) (s : CpuUsage) → (after t ps s).has_data_cnt ≡ s.has_data_cnt
unfolding map_threads refresh_watching record_stat
cnt-after t ps s = cnt-read_procs ps (before t s)

valid-count : (j : ℕ) (s : CpuUsage) → valid_at j (count_refresh s) ≡ valid_at j s
valid-count j s = ground arith

-- On a healthy system a refresh returns. It counts itself up to two, and afterwards the data of a
-- thread is valid exactly if the thread is a task of a process that this refresh has listed.
pub refresh_succeeds :
    (fs : ProcFs) (s : CpuUsage) (h : Healthy fs)
    → let (r, s') = refresh fs s in
      ((made : List Call) × (r ≡ ok made))
      × (s'.has_data_cnt ≡ (if ltb s.has_data_cnt 2 then s.has_data_cnt + 1 else s.has_data_cnt))
      × ((j : ℕ) → valid_at j s' ≡ reported j (h.procs (requested s)))
refresh_succeeds fs s h =
    let ps = h.procs (requested s) in
    let tasks = h.tasks_read (requested s) in
    let done = read_procs-ok ps (before h.reading s) tasks in
    rw (refresh-ok fs s h.reading ps h.stat_read (h.proc_read (requested s)) done) (
      (_, refl),
      ground (arith, cnt-after h.reading ps s),
      λ j. rw (valid-count j (after h.reading ps s)) (valid-after h.reading ps s j tasks),
    )

two_refreshes :
    (fs fs' : ProcFs) (s : CpuUsage)
    → Healthy fs
    → Healthy fs'
    → ((made : List Call) × ((refresh_twice false fs fs' s).0 ≡ ok made))
      × (has_data (refresh_twice false fs fs' s).1 ≡ true)
unfolding refresh_twice has_data
two_refreshes fs fs' s h h' =
    let (a, b, c) = refresh_succeeds fs s h in
    let (a', b', c') = refresh_succeeds fs' (refresh fs s).1 h' in
    ((a.0 ++ a'.0, ground (arith, a.1, a'.1)), ground (arith, a.1, a'.1, b, b'))

abbrev use_of : ℕ → CpuUsage → ℤ
use_of tid s = of_thread (λ t. t.cpu_usage) (find tid s.thread_cpu_usage_data)

query_ready :
    (tid : ℕ) (s : CpuUsage)
    → has_data s ≡ true
    → get_thread_cpu_usage_without_refresh tid s ≡ some (use_of tid s)
unfolding get_thread_cpu_usage_without_refresh
query_ready tid s e = rw e refl

-- A query of a thread's use whose refreshing thread does not run makes its two refreshes and then has
-- an answer, never waiting; with the refreshing thread running it answers once two refreshes are made.
pub get_thread_cpu_usage_answers :
    (fs fs' : ProcFs) (s : CpuUsage) (tid : ℕ)
    → Healthy fs
    → Healthy fs'
    → ((v : ℤ) × ((get_thread_cpu_usage false fs fs' tid s).0 ≡ ok (some v)))
      × (has_data s ≡ true → (v : ℤ) × ((get_thread_cpu_usage true fs fs' tid s).0 ≡ ok (some v)))
unfolding get_thread_cpu_usage
get_thread_cpu_usage_answers fs fs' s tid h h' =
    let ((made, done), ready) = two_refreshes fs fs' s h h' in
    let s' = (refresh_twice false fs fs' s).1 in
    (
      (use_of tid s', ground (arith, done, query_ready tid s' ready)),
      λ e. (use_of tid s, unfold refresh_twice in ap ok (query_ready tid s e)),
    )
