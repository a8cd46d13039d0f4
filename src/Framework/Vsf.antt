-- ===== src/Framework/Vsf.antt =====
-- src/vsf.cpp and the rest of src/framework/vm.cpp: `Vsf` hands each option to the host or to the
-- virtual machines, and is the entry to what they do.
mod Tests
pub mod Enabled
use libvsf.Prelude.{
  ℕ, ◌+◌, Bool, true, false, Option, none, some, List, [], ◌∷◌, ltb, if◌then◌else◌,
}
use libvsf.Prelude.Double.{Double}
use libvsf.Prelude.Exec.{
  Result, ok, err, framework_init_more_than_twice, dangling_pointer, Exec, modify, ◌>>=◌, ◌>>◌,
}
use libvsf.Container.Map.{Map}
use libvsf.Container.Set.{Set}
use libvsf.Utils.Options.{VsfOption, option_value, separator_for_hs_and_vm}
use libvsf.Utils.FuncOption.{Params, FuncOption, enable_option}
use libvsf.Vm.VmId.{VmId}
use libvsf.Vm.VmBase.Data.{Found}
use libvsf.Vm.VmBase.Query.{get_vm_ids}
use libvsf.Migration.{CpuMig, Mask, exec_cpu_mig}
use libvsf.Framework.VmSet as Vms
use libvsf.Framework.VmSet.{VmSet, init_options}
use libvsf.Framework.Host as Hosts
use libvsf.Framework.Host.{Host, HostSystem, construct}

-- The options are those of `vm_set`; `host_ready` tells whether `host_` points to the host.
pub record Vsf (F : Type 0) : Type 0 where
  pub vm_set : VmSet F
  pub host : Host F
  pub host_ready : Bool
  pub cpu_mig : CpuMig
  pub inited_cnt : ℕ

abbrev pub is_vm_option : VsfOption → Bool
is_vm_option op = ltb (option_value separator_for_hs_and_vm) (option_value op)

module _ {F : Type 0} where
  abbrev pub options_of : Vsf F → FuncOption F
  options_of v = v.vm_set.func_option

  abbrev pub with_options : FuncOption F → Vsf F → Vsf F
  with_options o v = record v { vm_set = record v.vm_set { func_option = o } }

  abbrev pub on_vm_set : {A : Type 0} → Exec (VmSet F) A → Exec (Vsf F) A
  on_vm_set m v = let (r, s) = m v.vm_set in (r, record v { vm_set = s })

  -- The host's view of the one FuncOption.
  abbrev pub host_of : Vsf F → Host F
  host_of v = record v.host { func_option = options_of v }

  abbrev pub put_host : Host F → Vsf F → Vsf F
  put_host h v = with_options h.func_option (record v { host = h })

  abbrev pub run_host : {A : Type 0} → Exec (Host F) A → Exec (Vsf F) A
  run_host m v = let (r, h) = m (host_of v) in (r, put_host h v)

  -- A call through `host_`, which is not set before `init_host`.
  abbrev pub on_host : {A : Type 0} → Exec (Host F) A → Exec (Vsf F) A
  on_host m v = if v.host_ready then run_host m v else (err dangling_pointer, v)

  -- One round of the loop of `set_param`, and of `clear_param`.
  unfoldable pub set_one : VsfOption → Params F → Exec (Vsf F) (Unit {0})
  set_one op ps =
      if is_vm_option op
      then on_vm_set (Vms.set_param ((op, ps) ∷ []))
      else on_host (Hosts.set_param ((op, ps) ∷ []))

  unfoldable pub set_param : Map VsfOption (Params F) → Exec (Vsf F) (Unit {0})
  set_param [] v = (ok tt, v)
  set_param ((op, ps) ∷ ops) v = (set_one op ps >> set_param ops) v

  unfoldable pub clear_one : VsfOption → Exec (Vsf F) (Unit {0})
  clear_one op =
      if is_vm_option op
      then on_vm_set (Vms.clear_param (op ∷ []))
      else on_host (modify (Hosts.clear_param (op ∷ [])))

  unfoldable pub clear_param : List VsfOption → Exec (Vsf F) (Unit {0})
  clear_param [] v = (ok tt, v)
  clear_param (op ∷ ops) v = (clear_one op >> clear_param ops) v

  -- The count goes up whether the call throws or not.
  unfoldable pub init : Map VsfOption (Params F) → Exec (Vsf F) (Unit {0})
  init ops v =
      let v' = record v { inited_cnt = v.inited_cnt + 1 } in
      if ltb 1 v'.inited_cnt
      then (err framework_init_more_than_twice, v')
      else (ok tt, with_options (enable_option ops (options_of v')) v')

  unfoldable pub query_ids : Bool → Found → Exec (VmSet F) (Option (Set VmId))
  query_ids joinable found s =
      let (r, b) = get_vm_ids joinable found s.vm_base in (r, record s { vm_base = b })

  -- A machine is known by its id; `VM` has no other data of its own.
  unfoldable pub init_vms : Found → Exec (Vsf F) (Option (Set VmId))
  init_vms found = on_vm_set (λ s. (init_options >> query_ids s.vm_base_runs found) s)

  unfoldable pub exec_mig : Bool → Exec (Vsf F) (List (ℕ × Mask))
  exec_mig allocates v =
      let (r, c) = exec_cpu_mig allocates v.cpu_mig in (r, record v { cpu_mig = c })

module _ (d : Double) (sys : HostSystem d) where
  abbrev ready : Result (Unit {0}) × Vsf d.F → Result (Unit {0}) × Vsf d.F
  ready (ok u, v) = (ok u, record v { host_ready = true })
  ready (err e, v) = (err e, v)

  -- The host is constructed at the first call, and again after a constructor that has thrown.
  unfoldable pub init_host : Exec (Vsf d.F) (Unit {0})
  init_host v = if v.host_ready then (ok tt, v) else ready (run_host (construct d sys) v)
