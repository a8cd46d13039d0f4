-- ===== src/Vm/Tests.antt =====
-- Small systems, and the theorems on CPU use applied to them.
use libvsf.Prelude.{
  ℕ, ◌+◌, ◌≡◌, refl, ap, true, false, none, some, List, [], ◌∷◌, ◌++◌, arith, if◌then◌else◌, All,
  get_or, ltb, Bool-cases, inl, inr,
}
use libvsf.Prelude.Int.{ℤ}
use libvsf.Prelude.Exec.{ok, ◌>>◌}
use libvsf.Container.Order.{nat_less, same}
use libvsf.Container.Map.{find}
use libvsf.Container.Set.{member}
use libvsf.Vm.VmId.{VmId, vm_id_lt, vm_id_less, vm_id_lt_cycle}
use libvsf.Vm.CpuUsage.Data.{
  Task, Proc, Stat, ProcFs, ThreadCpuUsageData, new_thread, Call, CpuUsage, init, set_callback,
  start_watching,
}
use libvsf.Vm.CpuUsage.Refresh.{has_data, refresh, refresh_system}
use libvsf.Vm.CpuUsage.Query.{get_thread_cpu_usage}
use libvsf.Vm.CpuUsage.System.{refresh_system_delta}
use libvsf.Vm.CpuUsage.Threads.{valid_at, reported, requested}
use libvsf.Vm.CpuUsage.Progress.{Healthy, refresh_succeeds, get_thread_cpu_usage_answers}
use libvsf.Vm.CpuUsage.Kept.{watched, OnlyRequested}
use libvsf.Vm.VmCpuUsage as VmCpuUsageModel
use libvsf.Vm.VmCpuUsage.{VmCpuUsage, pids_of}
use libvsf.Vm.VmCpuUsage.Tracking.{Tracks, refresh-Tracks}

abbrev early : Stat
early = record { user_time = 10; nice_time = 1; sys_time = 5; idle_time = 84 }

abbrev late : Stat
late = record { user_time = 60; nice_time = 1; sys_time = 15; idle_time = 224 }

abbrev task_8 : Task
task_8 = record { tid = 8; tgid = 7; processor = 1; utime = 30; stime = 20 }

abbrev process_7 : Proc
process_7 = record { tid = 7; tasks = task_8 ∷ [] }

-- A system with the process 7, which is listed if it is asked for.
abbrev list_7 : List ℕ → List Proc
list_7 pids = if member 7 pids then process_7 ∷ [] else []

abbrev at : Stat → ProcFs
at t = record { stat = some t; openproc = λ pids. some (list_7 pids) }

abbrev fresh : CpuUsage
fresh = start_watching 7 (init 2)

member-append_0 : (pids : List ℕ) → member 7 (pids ++ 0 ∷ []) ≡ member 7 pids
unfolding member same
member-append_0 [] = refl
member-append_0 (k ∷ ks) = rw (member-append_0 ks) refl

All-list_7 : (pids : List ℕ) → All (λ p. member p.tid pids ≡ true) (list_7 (pids ++ 0 ∷ []))
All-list_7 pids =
    rw (member-append_0 pids)
      (elim (Bool-cases (member 7 pids)) [ inl e ↦ rw e (e, tt) | inr e ↦ rw e tt ])

list_7-OnlyRequested : OnlyRequested (λ pids. some (list_7 pids))
list_7-OnlyRequested pids ps e = rw (← ap (λ o. get_or o []) e) (All-list_7 pids)

abbrev at-Healthy : (t : Stat) → Healthy (at t)
at-Healthy t = record {
  reading = t;
  procs = list_7;
  stat_read = refl;
  proc_read = λ pids. refl;
  tasks_read = λ pids. elim (Bool-cases (member 7 pids)) [
    | inl e ↦ rw e ((omega arith, omega arith), tt)
    | inr e ↦ rw e tt
  ];
}

refresh_system_delta_example :
    let (r, s') = (refresh_system (some early) >> refresh_system (some late)) fresh in
    (r ≡ ok tt) × (s'.total_cpu_time_delta ≡ 200) × (s'.idle_time_delta ≡ 140)
refresh_system_delta_example =
    refresh_system_delta early late fresh (omega arith) (omega arith) (omega arith) (omega arith)
      (omega arith)

abbrev seen : ThreadCpuUsageData
seen = record new_thread { proctime_new = 20 }

refresh_succeeds_example :
    let (r, s') = refresh (at early) fresh in
    ((made : List Call) × (r ≡ ok made))
    × (s'.has_data_cnt
        ≡ (if ltb fresh.has_data_cnt 2 then fresh.has_data_cnt + 1 else fresh.has_data_cnt))
    × ((j : ℕ) → valid_at j s' ≡ reported j (list_7 (requested fresh)))
refresh_succeeds_example = refresh_succeeds (at early) fresh (at-Healthy early)

get_thread_cpu_usage_answers_example :
    ((v : ℤ) × ((get_thread_cpu_usage false (at early) (at late) 8 fresh).0 ≡ ok (some v)))
    × (has_data fresh ≡ true
        → (v : ℤ) × ((get_thread_cpu_usage true (at early) (at late) 8 fresh).0 ≡ ok (some v)))
get_thread_cpu_usage_answers_example =
    get_thread_cpu_usage_answers (at early) (at late) fresh 8 (at-Healthy early) (at-Healthy late)

abbrev broken : ProcFs
broken = record { stat = none; openproc = λ pids. none }

abbrev machines : List VmId
machines =
    record { start_timestamp = 100; pid = 7 } ∷ record { start_timestamp = 200; pid = 9 } ∷ []

abbrev tracker : VmCpuUsage
tracker = VmCpuUsageModel.init (init 2)

init-Tracks : Tracks tracker
unfolding VmCpuUsageModel.init init find member set_callback
init-Tracks = record { sorted = tt; no_start = refl; no_stop = refl; exact = λ j. refl }

refresh-Tracks_example :
    let v' = (VmCpuUsageModel.refresh machines (at early) tracker).1 in
    Tracks v' × ((j : ℕ) → watched j v'.cpu_usage ≡ member j (pids_of machines))
refresh-Tracks_example =
    refresh-Tracks machines (at early) tracker early refl list_7-OnlyRequested init-Tracks

abbrev vm_at : ℕ → ℕ → VmId
vm_at t p = record { start_timestamp = t; pid = p }

vm_id_lt_cycle_example :
    (vm_id_lt (vm_at 10 1) (vm_at 12 2) ≡ true)
    × (vm_id_lt (vm_at 12 2) (vm_at 14 3) ≡ true)
    × (vm_id_lt (vm_at 14 3) (vm_at 10 1) ≡ true)
vm_id_lt_cycle_example = vm_id_lt_cycle 10 1 2 3 (omega arith) (omega arith)
