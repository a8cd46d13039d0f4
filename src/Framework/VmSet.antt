-- ===== src/Framework/VmSet.antt =====
-- src/framework/vm.cpp: `VmSet` hands the parameters of the options to the components. A callback is
-- an object on the heap that the user has made and VmSet owns: its number is the pointer, null is 0. An
-- interval is not negative.
mod Tests
pub mod Faults
pub mod Leaves
use libvsf.Prelude.{
  ℕ, Bool, true, false, ◌&&◌, Option, none, some, List, [], ◌∷◌, ◌==◌, if◌then◌else◌,
}
use libvsf.Prelude.Int.{ℤ, pos, pos_part}
use libvsf.Prelude.Exec.{
  Result, ok, err, null_pointer, dangling_pointer, Exec, pure, gets, of_result, modify, ◌>>=◌, ◌>>◌,
}
use libvsf.Container.Order.{nat_less}
use libvsf.Container.Map.{Map}
use libvsf.Container.Set.{Set, member}
use libvsf.Utils.Options.{
  VsfOption, OptionParam, option_less, param_less, op_vm_base, op_vm_cpu_usage, op_vm_cache_miss,
  vm_cmd, loop_interval, sample_interval, callback,
}
use libvsf.Utils.ParamVal.{
  OptionParamVal, holding, sval, ival, pval, get_string, get_int, get_pointer,
}
use libvsf.Utils.FuncOption.{Params, FuncOption, enable_option, check_option, get_param}
use libvsf.Vm.VmBase.Data.{VmBase}
use libvsf.Vm.VmBase.Data as VmBaseData
use libvsf.Vm.VmCpuUsage.{VmCpuUsage}
use libvsf.Vm.VmCpuUsage as VmCpuUsageModel
use libvsf.Vm.VmCacheMiss.{VmCacheMiss}
use libvsf.Vm.VmCacheMiss as VmCacheMissModel

-- `heap` are the callback objects that are alive; the three flags are `joinable` of the components.
pub record VmSet (F : Type 0) : Type 0 where
  pub func_option : FuncOption F
  pub heap : List ℕ
  pub vm_base : VmBase
  pub vm_cpu_usage : VmCpuUsage
  pub vm_cache_miss : VmCacheMiss F
  pub vm_base_runs : Bool
  pub vm_cpu_usage_runs : Bool
  pub vm_cache_miss_runs : Bool

-- Takes one object off the heap.
abbrev pub free : ℕ → List ℕ → List ℕ
free p [] = []
free p (q ∷ qs) = let rest = free p qs in if p == q then qs else q ∷ rest

module _ {F : Type 0} where
  -- delete of a pointer.
  abbrev pub delete_pointer : ℕ → Exec (VmSet F) (Unit {0})
  delete_pointer p s =
      if p == 0
      then (ok tt, s)
      else if member p s.heap
      then (ok tt, record s { heap = free p s.heap })
      else (err dangling_pointer, s)

  -- The object that a pointer points to.
  abbrev pub read_pointer : ℕ → Exec (VmSet F) ℕ
  read_pointer p s =
      if p == 0
      then (err null_pointer, s)
      else if member p s.heap
      then (ok p, s)
      else (err dangling_pointer, s)

  -- The loop over the parameters of one option that deletes the callback.
  unfoldable pub delete_callbacks : Params F → Exec (VmSet F) (Unit {0})
  delete_callbacks [] = pure tt
  delete_callbacks ((p, v) ∷ ps) = elim p [
    | callback ↦ (of_result (get_pointer v) >>= delete_pointer) >> delete_callbacks ps
    | _ ↦ delete_callbacks ps
  ]

  abbrev pub params_of : VsfOption → VmSet F → Params F
  params_of op s = (get_param op s.func_option).0

  abbrev pub enabled : VsfOption → VmSet F → Bool
  enabled op s = check_option op s.func_option

  abbrev pub delete_if_enabled : VsfOption → Exec (VmSet F) (Unit {0})
  delete_if_enabled op s = if enabled op s then delete_callbacks (params_of op s) s else (ok tt, s)

  unfoldable pub delete_callback : VsfOption → Exec (VmSet F) (Unit {0})
  delete_callback op = elim op [
    | op_vm_base ↦ delete_if_enabled op_vm_base
    | op_vm_cpu_usage ↦ delete_if_enabled op_vm_cpu_usage
    | op_vm_cache_miss ↦ delete_if_enabled op_vm_cache_miss
    | _ ↦ pure tt
  ]

  abbrev pub on_base : (VmBase → VmBase) → Exec (VmSet F) (Unit {0})
  on_base f = modify (λ s. record s { vm_base = f s.vm_base })

  abbrev pub on_cpu_usage : (VmCpuUsage → VmCpuUsage) → Exec (VmSet F) (Unit {0})
  on_cpu_usage f = modify (λ s. record s { vm_cpu_usage = f s.vm_cpu_usage })

  abbrev pub on_cache_miss : (VmCacheMiss F → VmCacheMiss F) → Exec (VmSet F) (Unit {0})
  on_cache_miss f = modify (λ s. record s { vm_cache_miss = f s.vm_cache_miss })

  abbrev pub callback_of : OptionParamVal F → Exec (VmSet F) (Option ℕ)
  callback_of v = do p ← of_result (get_pointer v); f ← read_pointer p; pure (some f)

  -- One parameter of each option.
  unfoldable pub set_base_param : OptionParam → OptionParamVal F → Exec (VmSet F) (Unit {0})
  set_base_param p v = elim p [
    | vm_cmd ↦ of_result (get_string v) >>= λ cmd. on_base (VmBaseData.set_vm_cmd cmd)
    | loop_interval ↦ of_result (get_int v) >>= λ i. on_base (VmBaseData.set_interval (pos_part i))
    | callback ↦ callback_of v >>= λ f. on_base (VmBaseData.set_callback f)
    | _ ↦ pure tt
  ]

  unfoldable pub set_cpu_usage_param : OptionParam → OptionParamVal F → Exec (VmSet F) (Unit {0})
  set_cpu_usage_param p v = elim p [
    | loop_interval ↦
        of_result (get_int v) >>= λ i. on_cpu_usage (VmCpuUsageModel.set_interval (pos_part i))
    | callback ↦ callback_of v >>= λ f. on_cpu_usage (VmCpuUsageModel.set_callback f)
    | _ ↦ pure tt
  ]

  unfoldable pub set_cache_miss_param : OptionParam → OptionParamVal F → Exec (VmSet F) (Unit {0})
  set_cache_miss_param p v = elim p [
    | loop_interval ↦ of_result (get_int v) >>= λ i.
        on_cache_miss (VmCacheMissModel.set_loop_interval (pos_part i))
    | sample_interval ↦ of_result (get_int v) >>= λ i.
        on_cache_miss (VmCacheMissModel.set_sample_interval (pos_part i))
    | callback ↦ callback_of v >>= λ f. on_cache_miss (VmCacheMissModel.set_callback f)
    | _ ↦ pure tt
  ]

  unfoldable pub set_each :
      (OptionParam → OptionParamVal F → Exec (VmSet F) (Unit {0}))
      → Params F
      → Exec (VmSet F) (Unit {0})
  set_each one_param [] = pure tt
  set_each one_param ((p, v) ∷ ps) = one_param p v >> set_each one_param ps

  unfoldable pub set_param_by_option : VsfOption → Params F → Exec (VmSet F) (Unit {0})
  set_param_by_option op ps = elim op [
    | op_vm_base ↦ set_each set_base_param ps
    | op_vm_cpu_usage ↦ set_each set_cpu_usage_param ps
    | op_vm_cache_miss ↦ set_each set_cache_miss_param ps
    | _ ↦ pure tt
  ]

  -- `delete_callback` is called if the option is enabled.
  abbrev pub delete_old : VsfOption → Exec (VmSet F) (Unit {0})
  delete_old op s = if enabled op s then delete_callback op s else (ok tt, s)

  unfoldable pub set_options : Map VsfOption (Params F) → Exec (VmSet F) (Unit {0})
  set_options [] = pure tt
  set_options ((op, ps) ∷ ops) = delete_old op >> set_param_by_option op ps >> set_options ops

  abbrev pub enable : Map VsfOption (Params F) → VmSet F → VmSet F
  enable ops s = record s { func_option = enable_option ops s.func_option }

  unfoldable pub set_param : Map VsfOption (Params F) → Exec (VmSet F) (Unit {0})
  set_param ops = set_options ops >> modify (enable ops)

  -- The defaults that `clear_param` enables. NULL has no type of its own; as a pointer it is null.
  abbrev pub base_defaults : Params F
  base_defaults =
      (vm_cmd, holding (sval VmBaseData.default_vm_cmd))
      ∷ (loop_interval, holding (ival (pos VmBaseData.default_interval_ms)))
      ∷ (callback, holding (pval 0))
      ∷ []

  abbrev pub cpu_usage_defaults : Params F
  cpu_usage_defaults =
      (loop_interval, holding (ival (pos VmCpuUsageModel.default_interval_ms)))
      ∷ (callback, holding (pval 0))
      ∷ []

  abbrev pub cache_miss_defaults : Params F
  cache_miss_defaults =
      (loop_interval, holding (ival (pos VmCacheMissModel.default_loop_interval_ms)))
      ∷ (sample_interval, holding (ival (pos 50000)))
      ∷ (callback, holding (pval 0))
      ∷ []

  -- One case of the switch, for the option `op` that is to be cleared: the defaults are those of the
  -- case's own option.
  abbrev pub reset_if_enabled : VsfOption → VsfOption → Params F → Exec (VmSet F) (Unit {0})
  reset_if_enabled op own defaults s =
      if enabled op s
      then (delete_callback op >> modify (enable ((own, defaults) ∷ []))) s
      else (ok tt, s)

  abbrev pub clear_cache_miss : VsfOption → Exec (VmSet F) (Unit {0})
  clear_cache_miss op =
      reset_if_enabled op op_vm_cache_miss cache_miss_defaults
      >> on_cache_miss VmCacheMissModel.clear_param

  abbrev pub clear_cpu_usage : VsfOption → Exec (VmSet F) (Unit {0})
  clear_cpu_usage op =
      reset_if_enabled op op_vm_cpu_usage cpu_usage_defaults
      >> on_cpu_usage VmCpuUsageModel.clear_param

  abbrev pub clear_base : VsfOption → Exec (VmSet F) (Unit {0})
  clear_base op = reset_if_enabled op op_vm_base base_defaults >> on_base VmBaseData.clear_param

  -- The cases have no break: each goes on with the ones after it.
  unfoldable pub clear_option : VsfOption → Exec (VmSet F) (Unit {0})
  clear_option op = elim op [
    | op_vm_base ↦
        clear_base op_vm_base >> clear_cpu_usage op_vm_base >> clear_cache_miss op_vm_base
    | op_vm_cpu_usage ↦ clear_cpu_usage op_vm_cpu_usage >> clear_cache_miss op_vm_cpu_usage
    | op_vm_cache_miss ↦ clear_cache_miss op_vm_cache_miss
    | _ ↦ pure tt
  ]

  unfoldable pub clear_param : List VsfOption → Exec (VmSet F) (Unit {0})
  clear_param [] = pure tt
  clear_param (op ∷ ops) = clear_option op >> clear_param ops

  abbrev pub start_base : VmSet F → VmSet F
  start_base s = record s { vm_base_runs = true }

  abbrev pub start_cpu_usage : VmSet F → VmSet F
  start_cpu_usage s = record s { vm_cpu_usage_runs = true }

  abbrev pub start_cache_miss : VmSet F → VmSet F
  start_cache_miss s = record s { vm_cache_miss_runs = true }

  -- One option in `init_vms`: its parameters are set, and its component is started.
  abbrev pub init_option : VsfOption → (VmSet F → VmSet F) → Exec (VmSet F) (Unit {0})
  init_option op start s =
      if enabled op s
      then (set_param_by_option op (params_of op s) >> modify start) s
      else (ok tt, s)

  -- `init_vms` up to its query of the ids.
  unfoldable pub init_options : Exec (VmSet F) (Unit {0})
  init_options =
      init_option op_vm_base start_base
      >> init_option op_vm_cpu_usage start_cpu_usage
      >> init_option op_vm_cache_miss start_cache_miss
