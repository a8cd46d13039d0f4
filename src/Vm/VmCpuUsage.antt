-- ===== src/Vm/VmCpuUsage.antt =====
-- src/sysinfo/vm/dynamic/vm_cpu_usage.cpp: CPU use by virtual machine. It keeps the singleton
-- `CpuUsage` watching the processes of the machines that exist. The ids that `VmBase::get_vm_ids`
-- returns are an argument of each refresh.
pub mod Tracking
use libvsf.Prelude.{
  ℕ, ◌≡◌, Bool, true, false, Option, none, some, List, [], ◌∷◌, ◌++◌, map, if◌then◌else◌,
}
use libvsf.Prelude.Int.{ℤ}
use libvsf.Prelude.Double.{Double}
use libvsf.Prelude.Exec.{Result, Exec, pure, gets, modify, ◌>>=◌, ◌>>◌}
use libvsf.Container.Order.{nat_less}
use libvsf.Container.Set.{Set, insert_all, set_difference}
use libvsf.Vm.VmId.{VmId}
use libvsf.Vm.CpuUsage.Data.{ProcFs, Call, CpuUsage, start_watching, stop_watching}
use libvsf.Vm.CpuUsage.Data as CpuUsageData
use libvsf.Vm.CpuUsage.Refresh as CpuUsageRefresh
use libvsf.Vm.CpuUsage.Query.{
  get_process_cpu_usage_without_refresh, get_thread_cpu_usage_without_refresh,
  get_thread_running_on_cpu_without_refresh, get_sys_cpu_usage_without_refresh,
}

abbrev pub default_interval_ms : ℕ
default_interval_ms = 1000

pub record VmCpuUsage : Type 0 where
  pub last_pids : Set ℕ
  pub interval_ms : ℕ
  pub callback_func : Option ℕ
  pub cpu_usage : CpuUsage

-- The number of the static function `cpu_usage_callback`.
abbrev pub cpu_usage_callback_id : ℕ
cpu_usage_callback_id = 0

-- The constructor, which takes over the singleton's callback.
unfoldable pub init : CpuUsage → VmCpuUsage
init u = record {
  last_pids = [];
  interval_ms = default_interval_ms;
  callback_func = none;
  cpu_usage = CpuUsageData.set_callback (some cpu_usage_callback_id) u;
}

unfoldable pub set_interval : ℕ → VmCpuUsage → VmCpuUsage
set_interval interval v = record v { interval_ms = interval }

unfoldable pub set_callback : Option ℕ → VmCpuUsage → VmCpuUsage
set_callback f v = record v { callback_func = f }

unfoldable pub clear_param : VmCpuUsage → VmCpuUsage
clear_param v = record v {
  cpu_usage =
      CpuUsageData.set_callback (some cpu_usage_callback_id) (CpuUsageData.clear_param v.cpu_usage);
  interval_ms = default_interval_ms;
  callback_func = none;
}

unfoldable pub clear : VmCpuUsage → VmCpuUsage
clear v = record v { cpu_usage = CpuUsageData.clear v.cpu_usage; last_pids = [] }

-- `cpu_usage_callback`: the user's function is called in its turn, if there is one.
unfoldable pub cpu_usage_callback : Option ℕ → List Call → List Call
cpu_usage_callback none cs = []
cpu_usage_callback (some f) [] = []
cpu_usage_callback (some f) (c ∷ cs) = record c { callback = f } ∷ cpu_usage_callback (some f) cs

unfoldable pub start_watching_all : List ℕ → CpuUsage → CpuUsage
start_watching_all [] u = u
start_watching_all (pid ∷ pids) u = start_watching_all pids (start_watching pid u)

unfoldable pub stop_watching_all : List ℕ → CpuUsage → CpuUsage
stop_watching_all [] u = u
stop_watching_all (pid ∷ pids) u = stop_watching_all pids (stop_watching pid u)

abbrev pub pids_of : List VmId → Set ℕ
pids_of vm_ids = insert_all (map (λ v. v.pid) vm_ids) []

-- The part of a refresh that runs under the lock: the changes since the last one are queued.
unfoldable pub queue_changes : List VmId → VmCpuUsage → VmCpuUsage
queue_changes vm_ids v = record v {
  last_pids = pids_of vm_ids;
  cpu_usage =
      stop_watching_all (set_difference v.last_pids (pids_of vm_ids))
        (start_watching_all (set_difference (pids_of vm_ids) v.last_pids) v.cpu_usage);
}

-- A call of the singleton.
unfoldable pub on_cpu_usage : {A : Type 0} → Exec CpuUsage A → Exec VmCpuUsage A
on_cpu_usage m v = let (r, u) = m v.cpu_usage in (r, record v { cpu_usage = u })

unfoldable pub refresh : List VmId → ProcFs → Exec VmCpuUsage (List Call)
refresh vm_ids fs = do
  modify (queue_changes vm_ids)
  made ← on_cpu_usage (CpuUsageRefresh.refresh fs)
  gets (λ v. cpu_usage_callback v.callback_func made)

-- What one refresh finds: the machines and the system.
abbrev pub Round : Type 0
Round = List VmId × ProcFs

unfoldable pub refresh_twice : Bool → Round → Round → Exec VmCpuUsage (List Call)
refresh_twice true a b = pure []
refresh_twice false a b = do made ← refresh a.0 a.1; made' ← refresh b.0 b.1; pure (made ++ made')

unfoldable pub get_cpu_usage : Bool → Round → Round → VmId → Exec VmCpuUsage (Option ℤ)
get_cpu_usage joinable a b vm_id = do
  refresh_twice joinable a b
  gets (λ v. get_process_cpu_usage_without_refresh vm_id.pid v.cpu_usage)

unfoldable pub get_thread_cpu_usage : Bool → Round → Round → ℕ → Exec VmCpuUsage (Option ℤ)
get_thread_cpu_usage joinable a b vmthread_id = do
  refresh_twice joinable a b
  gets (λ v. get_thread_cpu_usage_without_refresh vmthread_id v.cpu_usage)

unfoldable pub get_running_on_hpthread : Bool → Round → Round → ℕ → Exec VmCpuUsage (Option ℤ)
get_running_on_hpthread joinable a b vmthread_id = do
  refresh_twice joinable a b
  gets (λ v. get_thread_running_on_cpu_without_refresh vmthread_id v.cpu_usage)

unfoldable pub get_sys_cpu_usage : Double → Bool → Round → Round → Exec VmCpuUsage (Option ℤ)
get_sys_cpu_usage d joinable a b = do
  refresh_twice joinable a b
  gets (λ v. get_sys_cpu_usage_without_refresh d v.cpu_usage)
