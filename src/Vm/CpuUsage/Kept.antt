-- ===== src/Vm/CpuUsage/Kept.antt =====
-- What a refresh does to the set of watched processes: only the two queues change it.
use libvsf.Prelude.{
  ℕ, ◌≡◌, refl, ◌∙◌, sym, Bool, true, ◌||◌, Option, some, List, [], ◌∷◌, ◌++◌, arith, All,
  Option-cases, inl, inr,
}
use libvsf.Prelude.Int.{ℤ, pos}
use libvsf.Prelude.Exec.{Result, bind-keeps, ok, err, ◌>>◌}
use libvsf.Container.Order.{nat_less, nat-IsOrder, same, same_iff}
use libvsf.Container.Map.{contains, contains-put, keys, member-keys}
use libvsf.Container.Set.{member}
use libvsf.Vm.CpuUsage.Data.{Task, Proc, Stat, ProcFs, Call, CpuUsage}
use libvsf.Vm.CpuUsage.Refresh.{
  report, store_usage, map_threads, invalidate, read_task, read_tasks, read_proc, read_procs,
  refresh_watching, refresh_system, record_stat, refresh_thread, refresh, finish, set_process,
}

abbrev pub watched : ℕ → CpuUsage → Bool
watched j s = contains j s.process_cpu_usage_data

-- `openproc` lists only processes that it has been asked for; zero ends the array.
abbrev pub OnlyRequested : (List ℕ → Option (List Proc)) → Type 0
OnlyRequested openproc =
    (pids : List ℕ) (ps : List Proc)
    → openproc (pids ++ 0 ∷ []) ≡ some ps
    → All (λ p. member p.tid pids ≡ true) ps

watched-read_task :
    (pid j : ℕ) (t : Task) (s : CpuUsage)
    → watched j (read_task pid t s) ≡ (same pid j || watched j s)
unfolding read_task
watched-read_task pid j t s = contains-put nat-IsOrder pid j _ s.process_cpu_usage_data

watched-read_tasks :
    (pid j : ℕ) (ts : List Task) (s : CpuUsage)
    → watched pid s ≡ true
    → watched j (read_tasks pid ts s) ≡ watched j s
unfolding read_tasks
watched-read_tasks pid j [] s h = refl
watched-read_tasks pid j (t ∷ ts) s h = ground (
  arith,
  watched-read_tasks pid j ts (read_task pid t s),
  watched-read_task pid j t s,
  watched-read_task pid pid t s,
  same_iff nat-IsOrder pid j,
)

watched-set_process :
    (pid j : ℕ) (v : ℤ) (s : CpuUsage)
    → watched j (set_process pid v s) ≡ (same pid j || watched j s)
watched-set_process pid j v s = contains-put nat-IsOrder pid j v s.process_cpu_usage_data

watched-store_usage :
    (pid j : ℕ) (r : Result ℤ) (s : CpuUsage)
    → watched pid s ≡ true
    → watched j (store_usage pid r s).1 ≡ watched j s
unfolding store_usage
watched-store_usage pid j (ok v) s h =
    ground (arith, watched-set_process pid j v s, same_iff nat-IsOrder pid j)
watched-store_usage pid j (err e) s h = refl

-- The loop over the tasks, between two writes of the process's own entry.
watched-read_proc :
    (p : Proc) (j : ℕ) (s : CpuUsage)
    → watched p.tid s ≡ true
    → watched j (read_proc p s).1 ≡ watched j s
unfolding read_proc
watched-read_proc p j s h =
    let s' = set_process p.tid (pos 0) s in
    let s'' = read_tasks p.tid p.tasks s' in
    let first : (k : ℕ) → watched k s' ≡ watched k s =
      λ k. ground (arith, watched-set_process p.tid k (pos 0) s, same_iff nat-IsOrder p.tid k) in
    let own : watched p.tid s' ≡ true = first p.tid ∙ h in
    watched-store_usage p.tid j _ s'' (watched-read_tasks p.tid p.tid p.tasks s' own ∙ own)
    ∙ watched-read_tasks p.tid j p.tasks s' own
    ∙ first j

All-map {ℓ κ} :
    {A : Type ℓ} {P Q : A → Type κ} (f : (a : A) → P a → Q a) (xs : List A) → All P xs → All Q xs
All-map f [] h = tt
All-map f (x ∷ xs) h = (f x h.0, All-map f xs h.1)

watched-read_procs :
    (ps : List Proc) (j : ℕ) (s : CpuUsage)
    → All (λ p. watched p.tid s ≡ true) ps
    → watched j (read_procs ps s).1 ≡ watched j s
unfolding read_procs
watched-read_procs [] j s h = refl
watched-read_procs (p ∷ ps) j s h = ground (
  arith,
  watched-read_proc p j s h.0,
  watched-read_procs ps j (read_proc p s).1
      (All-map (λ q e. watched-read_proc p q.tid s h.0 ∙ e) ps h.1),
)

watched-report :
    (ps : List Proc) (j : ℕ) (u : CpuUsage)
    → watched j ((read_procs ps >> report) u).1 ≡ watched j (read_procs ps u).1
unfolding map_threads
watched-report ps j u = ground arith

watched-refresh_thread :
    (openproc : List ℕ → Option (List Proc)) (j : ℕ) (u : CpuUsage)
    → OnlyRequested openproc
    → watched j (refresh_thread openproc u).1 ≡ watched j u
unfolding refresh_thread
watched-refresh_thread openproc j u only =
    let pids = keys u.process_cpu_usage_data in
    elim (Option-cases (openproc (pids ++ 0 ∷ []))) [
      | inl e ↦ rw e refl
      | inr (ps, e) ↦
          let known : All (λ p. watched p.tid u ≡ true) ps =
            All-map (λ p k. sym (member-keys nat-IsOrder p.tid u.process_cpu_usage_data) ∙ k) ps
              (only pids ps e) in
          rw e (
            watched-report ps j (map_threads invalidate u)
            ∙ watched-read_procs ps j (map_threads invalidate u) (unfold map_threads in known)
            ∙ (unfold map_threads in refl))
    ]

watched-finish :
    (j : ℕ) (calls : List Call) (u : CpuUsage) → watched j (finish calls u).1 ≡ watched j u
watched-finish j calls u = ground arith

pub watched-refresh :
    (fs : ProcFs) (j : ℕ) (s : CpuUsage) (t : Stat)
    → fs.stat ≡ some t
    → OnlyRequested fs.openproc
    → watched j (refresh fs s).1 ≡ watched j (refresh_watching s)
unfolding refresh refresh_system
watched-refresh fs j s t e only = rw e (
    bind-keeps (watched j) (refresh_thread fs.openproc) finish (watched-finish j)
      (refresh_watching (record_stat t s))
    ∙ watched-refresh_thread fs.openproc j (refresh_watching (record_stat t s)) only
    ∙ (unfold refresh_watching record_stat in refl))

-- No part of a refresh but the loops over the queues writes to a queue.
abbrev queues : CpuUsage → List ℕ × List ℕ
queues s = (s.to_start_watching, s.to_stop_watching)

queues-read_tasks :
    (pid : ℕ) (ts : List Task) (s : CpuUsage) → queues (read_tasks pid ts s) ≡ queues s
unfolding read_tasks read_task
queues-read_tasks pid [] s = refl
queues-read_tasks pid (t ∷ ts) s = queues-read_tasks pid ts (read_task pid t s)

queues-store_usage :
    (pid : ℕ) (r : Result ℤ) (s : CpuUsage) → queues (store_usage pid r s).1 ≡ queues s
unfolding store_usage
queues-store_usage pid (ok v) s = refl
queues-store_usage pid (err e) s = refl

queues-read_procs : (ps : List Proc) (s : CpuUsage) → queues (read_procs ps s).1 ≡ queues s
unfolding read_procs read_proc
queues-read_procs [] s = refl
queues-read_procs (p ∷ ps) s =
    bind-keeps queues (read_proc p) (λ _. read_procs ps) (λ _ u. queues-read_procs ps u) s
    ∙ queues-store_usage p.tid _ _
    ∙ queues-read_tasks p.tid p.tasks (set_process p.tid (pos 0) s)

queues-report : (s : CpuUsage) → queues (report s).1 ≡ queues s
unfolding map_threads
queues-report s = refl

queues-refresh_thread :
    (openproc : List ℕ → Option (List Proc)) (u : CpuUsage)
    → queues (refresh_thread openproc u).1 ≡ queues u
unfolding refresh_thread
queues-refresh_thread openproc u =
    elim (Option-cases (openproc (keys u.process_cpu_usage_data ++ 0 ∷ []))) [
      | inl e ↦ rw e refl
      | inr (ps, e) ↦ rw e (
          bind-keeps queues (read_procs ps) (λ _. report) (λ _ s. queues-report s)
            (map_threads invalidate u)
          ∙ queues-read_procs ps (map_threads invalidate u)
          ∙ (unfold map_threads in refl))
    ]

-- Where /proc/stat can be read, both queues are empty after a refresh.
pub queues-refresh :
    (fs : ProcFs) (s : CpuUsage) (t : Stat) → fs.stat ≡ some t → queues (refresh fs s).1 ≡ ([], [])
unfolding refresh refresh_system
queues-refresh fs s t e = rw e (
    bind-keeps queues (refresh_thread fs.openproc) finish (λ c u. ground arith)
      (refresh_watching (record_stat t s))
    ∙ queues-refresh_thread fs.openproc (refresh_watching (record_stat t s))
    ∙ (unfold refresh_watching in refl))
