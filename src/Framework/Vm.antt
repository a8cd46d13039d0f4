-- ===== src/Framework/Vm.antt =====
-- The class VM of src/framework/vm.cpp: what a user asks of one virtual machine, handed on to the
-- singletons. `none` is a query that waits for a refreshing thread. The id of a processor is not
-- negative.
pub mod Migrated
use libvsf.Prelude.{ℕ, Bool, Option, List, [], map}
use libvsf.Prelude.Int.{ℤ, pos_part}
use libvsf.Prelude.Double.{Double}
use libvsf.Prelude.Exec.{Exec}
use libvsf.Container.Order.{nat_less}
use libvsf.Container.Set.{Set, insert_all}
use libvsf.Utils.StrTools.{Text}
use libvsf.Vm.VmId.{VmId, vm_id_lt}
use libvsf.Vm.VmBase.Data.{VmBase, Found}
use libvsf.Vm.VmBase.Query as Base
use libvsf.Vm.VmCpuUsage as Usage
use libvsf.Vm.VmCpuUsage.{VmCpuUsage, Round}
use libvsf.Vm.CacheMiss.Kernel.{PerfKernel}
use libvsf.Vm.CacheMiss.Data.{CacheMissData}
use libvsf.Vm.VmCacheMiss as Miss
use libvsf.Vm.VmCacheMiss.{VmCacheMiss, Machine}
use libvsf.Host.NodeCpu.{HpthreadId}
use libvsf.Migration.{set_cpu_mig}
use libvsf.Framework.Vsf.{Vsf}

pub record Vm : Type 0 where
  pub vm_id : VmId

-- operator=, and operator<
abbrev pub vm_assign : Vm → Vm → Vm
vm_assign this v = record this { vm_id = v.vm_id }

abbrev pub vm_lt : Vm → Vm → Bool
vm_lt lv rv = vm_id_lt lv.vm_id rv.vm_id

module _ {F : Type 0} where
  -- A query of a singleton, which is told whether its thread runs.
  abbrev pub ask_base : {A : Type 0} → (Bool → Exec VmBase A) → Exec (Vsf F) A
  ask_base m v =
      let (r, b) = m v.vm_set.vm_base_runs v.vm_set.vm_base in
      (r, record v { vm_set = record v.vm_set { vm_base = b } })

  abbrev pub ask_cpu_usage : {A : Type 0} → (Bool → Exec VmCpuUsage A) → Exec (Vsf F) A
  ask_cpu_usage m v =
      let (r, c) = m v.vm_set.vm_cpu_usage_runs v.vm_set.vm_cpu_usage in
      (r, record v { vm_set = record v.vm_set { vm_cpu_usage = c } })

  module _ (found : Found) (this : Vm) where
    unfoldable pub name : Exec (Vsf F) (Option Text)
    name = ask_base (λ runs. Base.get_name runs found this.vm_id)

    unfoldable pub uuid : Exec (Vsf F) (Option Text)
    uuid = ask_base (λ runs. Base.get_uuid runs found this.vm_id)

    unfoldable pub vsocket_num : Exec (Vsf F) (Option ℤ)
    vsocket_num = ask_base (λ runs. Base.get_vsocket_num runs found this.vm_id)

    unfoldable pub vcore_num : Exec (Vsf F) (Option ℤ)
    vcore_num = ask_base (λ runs. Base.get_vcore_num runs found this.vm_id)

    unfoldable pub vhpthread_num : Exec (Vsf F) (Option ℤ)
    vhpthread_num = ask_base (λ runs. Base.get_vhpthread_num runs found this.vm_id)

    unfoldable pub total_mem_size : Exec (Vsf F) (Option ℤ)
    total_mem_size = ask_base (λ runs. Base.get_total_mem_size runs found this.vm_id)

    unfoldable pub vcpu_ids : Exec (Vsf F) (Option (Set ℕ))
    vcpu_ids = ask_base (λ runs. Base.get_vcpu_ids runs found this.vm_id)

    unfoldable pub vcpu_num : Exec (Vsf F) (Option ℕ)
    vcpu_num = ask_base (λ runs. Base.get_vcpu_num runs found this.vm_id)

    unfoldable pub stable_vmthread_ids : Exec (Vsf F) (Option (Set ℕ))
    stable_vmthread_ids = ask_base (λ runs. Base.get_stable_vmthread_ids runs found this.vm_id)

    unfoldable pub stable_vmthread_num : Exec (Vsf F) (Option ℕ)
    stable_vmthread_num = ask_base (λ runs. Base.get_stable_vmthread_num runs found this.vm_id)

    unfoldable pub volatile_vmthread_ids : (ℕ → Text) → Exec (Vsf F) (Option (Set ℕ))
    volatile_vmthread_ids task_dir =
        ask_base (λ runs. Base.get_volatile_vmthread_ids task_dir runs found this.vm_id)

    unfoldable pub volatile_vmthread_num : (ℕ → Text) → Exec (Vsf F) (Option ℕ)
    volatile_vmthread_num task_dir =
        ask_base (λ runs. Base.get_volatile_vmthread_num task_dir runs found this.vm_id)

  module _ (a b : Round) where
    unfoldable pub cpu_usage : Vm → Exec (Vsf F) (Option ℤ)
    cpu_usage this = ask_cpu_usage (λ runs. Usage.get_cpu_usage runs a b this.vm_id)

    unfoldable pub cpu_usage_of : ℕ → Exec (Vsf F) (Option ℤ)
    cpu_usage_of vmthread_id =
        ask_cpu_usage (λ runs. Usage.get_thread_cpu_usage runs a b vmthread_id)

    unfoldable pub running_on_hpthread : ℕ → Exec (Vsf F) (Option ℤ)
    running_on_hpthread vmthread_id =
        ask_cpu_usage (λ runs. Usage.get_running_on_hpthread runs a b vmthread_id)

  unfoldable pub set_vcpu_mig : ℕ → Set HpthreadId → Vsf F → Vsf F
  set_vcpu_mig vmthread_id hpthread_ids v =
      let ids : Set ℕ = insert_all (map pos_part hpthread_ids) [] in
      record v { cpu_mig = set_cpu_mig vmthread_id ids v.cpu_mig }

module _ (d : Double) where
  unfoldable pub sys_cpu_usage : Round → Round → Exec (Vsf d.F) (Option ℤ)
  sys_cpu_usage a b = ask_cpu_usage (λ runs. Usage.get_sys_cpu_usage d runs a b)

  module _ (k : PerfKernel) (stable : ℕ → VmId) (sleep : k.World → k.World)
      (ms : List Machine) where
    -- The kernel's counters come back beside the answer.
    abbrev pub ask_cache_miss :
        (Bool → VmCacheMiss d.F → k.World → Option (CacheMissData d.F) × VmCacheMiss d.F × k.World)
        → Vsf d.F
        → k.World
        → Option (CacheMissData d.F) × Vsf d.F × k.World
    ask_cache_miss m v w =
        let (r, c, w') = m v.vm_set.vm_cache_miss_runs v.vm_set.vm_cache_miss w in
        (r, record v { vm_set = record v.vm_set { vm_cache_miss = c } }, w')

    unfoldable pub cache_miss :
        Vm → Vsf d.F → k.World → Option (CacheMissData d.F) × Vsf d.F × k.World
    cache_miss this =
        ask_cache_miss (λ runs. Miss.get_cache_miss d k runs stable sleep ms this.vm_id)

    unfoldable pub cache_miss_of :
        ℕ → Vsf d.F → k.World → Option (CacheMissData d.F) × Vsf d.F × k.World
    cache_miss_of vmthread_id =
        ask_cache_miss (λ runs. Miss.get_thread_cache_miss d k runs stable sleep ms vmthread_id)
