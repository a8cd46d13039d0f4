-- ===== src/Vm/VmCpuUsage/Tracking.antt =====
-- The singleton watches the processes of the machines: the link between the two components.
use libvsf.Prelude.{ℕ, ◌≡◌, refl, sym, ◌∙◌, ap, some, List, [], ◌∷◌, ◌++◌, map, arith}
use mathlib.Core.List.{append_assoc, append-nil}
use libvsf.Prelude.Exec.{gets, bind-keeps}
use libvsf.Container.Order.{nat_less, nat-IsOrder}
use libvsf.Container.Set.{member, set_difference, IsSorted}
use libvsf.Container.Set.Laws.{insert_all-IsSorted, member-set_difference}
use libvsf.Vm.VmId.{VmId}
use libvsf.Vm.CpuUsage.Data.{Stat, ProcFs, CpuUsage, start_watching, stop_watching}
use libvsf.Vm.CpuUsage.Refresh.{refresh_watching}
use libvsf.Vm.CpuUsage.Refresh as CpuUsageRefresh
use libvsf.Vm.CpuUsage.Watching.{refresh_watching_lem}
use libvsf.Vm.CpuUsage.Kept.{watched, OnlyRequested, watched-refresh, queues-refresh}
use libvsf.Vm.VmCpuUsage.{
  VmCpuUsage, cpu_usage_callback, pids_of, start_watching_all, stop_watching_all, queue_changes,
  on_cpu_usage, refresh,
}

abbrev with_start : CpuUsage → List ℕ → CpuUsage
with_start u pids = record u { to_start_watching = pids }

abbrev with_stop : CpuUsage → List ℕ → CpuUsage
with_stop u pids = record u { to_stop_watching = pids }

start_watching_all-append :
    (pids : List ℕ) (u : CpuUsage)
    → start_watching_all pids u ≡ with_start u (u.to_start_watching ++ pids)
unfolding start_watching_all start_watching
start_watching_all-append [] u = ap (with_start u) (sym (append-nil u.to_start_watching))
start_watching_all-append (pid ∷ pids) u =
    start_watching_all-append pids (start_watching pid u)
    ∙ ap (with_start u) (append_assoc u.to_start_watching (pid ∷ []) pids)

stop_watching_all-append :
    (pids : List ℕ) (u : CpuUsage)
    → stop_watching_all pids u ≡ with_stop u (u.to_stop_watching ++ pids)
unfolding stop_watching_all stop_watching
stop_watching_all-append [] u = ap (with_stop u) (sym (append-nil u.to_stop_watching))
stop_watching_all-append (pid ∷ pids) u =
    stop_watching_all-append pids (stop_watching pid u)
    ∙ ap (with_stop u) (append_assoc u.to_stop_watching (pid ∷ []) pids)

-- The singleton watches exactly the processes of the last refresh, and no change is pending.
pub record Tracks (v : VmCpuUsage) : Type 0 where
  pub sorted : IsSorted v.last_pids
  pub no_start : v.cpu_usage.to_start_watching ≡ []
  pub no_stop : v.cpu_usage.to_stop_watching ≡ []
  pub exact : (j : ℕ) → watched j v.cpu_usage ≡ member j v.last_pids

pids_of-IsSorted : (vm_ids : List VmId) → IsSorted (pids_of vm_ids)
pids_of-IsSorted vm_ids = insert_all-IsSorted nat-IsOrder (map (λ v. v.pid) vm_ids) [] tt

abbrev queues : List VmId → VmCpuUsage → CpuUsage
queues vm_ids v = record v.cpu_usage {
  to_start_watching = set_difference (pids_of vm_ids) v.last_pids;
  to_stop_watching = set_difference v.last_pids (pids_of vm_ids);
}

queued :
    (vm_ids : List VmId) (v : VmCpuUsage)
    → Tracks v
    → (queue_changes vm_ids v).cpu_usage ≡ queues vm_ids v
unfolding queue_changes
queued vm_ids v h =
    rw (stop_watching_all-append, start_watching_all-append) (rw (h.no_start, h.no_stop) refl)

watched-queued :
    (vm_ids : List VmId) (v : VmCpuUsage) (j : ℕ)
    → Tracks v
    → watched j (refresh_watching (queue_changes vm_ids v).cpu_usage) ≡ member j (pids_of vm_ids)
watched-queued vm_ids v j h = rw (queued vm_ids v h) (
    ground (
      arith,
      (refresh_watching_lem (queues vm_ids v)).0 j,
      member-set_difference nat-IsOrder j (pids_of vm_ids) v.last_pids (pids_of-IsSorted vm_ids)
          h.sorted,
      member-set_difference nat-IsOrder j v.last_pids (pids_of vm_ids) h.sorted
          (pids_of-IsSorted vm_ids),
      h.exact j,
    ))

-- The state after a refresh, whether or not it throws.
abbrev refreshed : List VmId → ProcFs → VmCpuUsage → VmCpuUsage
refreshed vm_ids fs v = record (queue_changes vm_ids v) {
  cpu_usage = (CpuUsageRefresh.refresh fs (queue_changes vm_ids v).cpu_usage).1;
}

refresh-state :
    (vm_ids : List VmId) (fs : ProcFs) (v : VmCpuUsage)
    → (refresh vm_ids fs v).1 ≡ refreshed vm_ids fs v
unfolding refresh on_cpu_usage
refresh-state vm_ids fs v =
    bind-keeps (λ w. w) (on_cpu_usage (CpuUsageRefresh.refresh fs))
      (λ made. gets (λ w. cpu_usage_callback w.callback_func made)) (λ made w. refl)
      (queue_changes vm_ids v)

last_pids-queue_changes :
    (vm_ids : List VmId) (v : VmCpuUsage) → (queue_changes vm_ids v).last_pids ≡ pids_of vm_ids
unfolding queue_changes
last_pids-queue_changes vm_ids v = refl

-- As long as /proc/stat can be read and `openproc` lists only what it is asked for, every refresh
-- leaves the singleton watching exactly the processes of the machines that it was given, with no
-- change pending, also if the processes cannot be listed.
pub refresh-Tracks :
    (vm_ids : List VmId) (fs : ProcFs) (v : VmCpuUsage) (t : Stat)
    → fs.stat ≡ some t
    → OnlyRequested fs.openproc
    → Tracks v
    → let v' = (refresh vm_ids fs v).1 in
      Tracks v' × ((j : ℕ) → watched j v'.cpu_usage ≡ member j (pids_of vm_ids))
refresh-Tracks vm_ids fs v t e only h =
    let u = (queue_changes vm_ids v).cpu_usage in
    let empty = queues-refresh fs u t e in
    let exact : (j : ℕ) → watched j (CpuUsageRefresh.refresh fs u).1 ≡ member j (pids_of vm_ids) =
      λ j. watched-refresh fs j u t e only ∙ watched-queued vm_ids v j h in
    rw (refresh-state vm_ids fs v) (
      record {
        sorted = rw (last_pids-queue_changes vm_ids v) (pids_of-IsSorted vm_ids);
        no_start = ap (λ q. q.0) empty;
        no_stop = ap (λ q. q.1) empty;
        exact = λ j. rw (last_pids-queue_changes vm_ids v) (exact j);
      },
      exact,
    )
