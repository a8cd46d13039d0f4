-- ===== src/Framework/VmSet/Faults.antt =====
-- What `VmSet::clear_param` leaves behind.
use libvsf.Prelude.{ℕ, ◌≡◌, refl, ap, sym, ◌∙◌, true, some, [], ◌∷◌, arith, if◌then◌else◌}
use libvsf.Prelude.Exec.{
  Result, ok, err, null_pointer, modify, ◌>>=◌, ◌>>◌, bind-err, bind-keeps, >>=-eq-ok,
}
use libvsf.Container.Order.{same, same_iff}
use libvsf.Container.Map.{find, find-put}
use libvsf.Utils.Options.{
  VsfOption, option_less, option_less-IsOrder, op_vm_base, op_vm_cpu_usage, op_vm_cache_miss,
  callback,
}
use libvsf.Utils.ParamVal.{get_pointer, get_int}
use libvsf.Utils.FuncOption.{Params, FuncOption, enable_option, check_option, get_param}
use libvsf.Vm.VmBase.Data as VmBaseData
use libvsf.Vm.VmCpuUsage as VmCpuUsageModel
use libvsf.Vm.VmCacheMiss as VmCacheMissModel
use libvsf.Framework.VmSet.{
  VmSet, of_result, delete_pointer, delete_callbacks, delete_callback, enabled, params_of, enable,
  base_defaults, cpu_usage_defaults, cache_miss_defaults, reset_if_enabled, clear_cache_miss,
  clear_cpu_usage, clear_base, clear_option, set_each, set_cache_miss_param, set_param_by_option,
  init_option, start_cache_miss,
}

module _ {F : Type 0} where
  keep-delete_pointer : (p : ℕ) (s : VmSet F) → (delete_pointer p s).1.func_option ≡ s.func_option
  keep-delete_pointer p s = ground arith

  keep-delete_callbacks :
      (ps : Params F) (s : VmSet F) → (delete_callbacks ps s).1.func_option ≡ s.func_option
  unfolding delete_callbacks
  keep-delete_callbacks [] s = refl
  keep-delete_callbacks ((callback, v) ∷ ps) s =
      bind-keeps (λ u. u.func_option) (of_result (get_pointer v) >>= delete_pointer)
        (λ _. delete_callbacks ps) (λ _ u. keep-delete_callbacks ps u) s
      ∙ bind-keeps (λ u. u.func_option) (of_result (get_pointer v)) delete_pointer
          keep-delete_pointer s
  keep-delete_callbacks ((_, v) ∷ ps) s = keep-delete_callbacks ps s

  pub keep-delete_callback :
      (op : VsfOption) (s : VmSet F) → (delete_callback op s).1.func_option ≡ s.func_option
  unfolding delete_callback
  keep-delete_callback op s = ground (
    arith,
    keep-delete_callbacks (params_of op_vm_base s) s,
    keep-delete_callbacks (params_of op_vm_cpu_usage s) s,
    keep-delete_callbacks (params_of op_vm_cache_miss s) s,
  )

  enabled-enable :
      (own j : VsfOption) (ps : Params F) (s : VmSet F)
      → enabled j (enable ((own, ps) ∷ []) s) ≡ (if same own j then true else enabled j s)
  unfolding check_option enable_option
  enabled-enable own j ps s =
      ground (arith, find-put option_less-IsOrder own j ps s.func_option.options)

  -- Where a reset of an enabled option returns, the option of the case is enabled.
  enabled-reset :
      (op own j : VsfOption) (ps : Params F) (s s' : VmSet F)
      → enabled op s ≡ true
      → reset_if_enabled op own ps s ≡ (ok tt, s')
      → enabled j s' ≡ (if same own j then true else enabled j s)
  enabled-reset op own j ps s s' on h =
      let (u, s1, e1, e2) =
        >>=-eq-ok (delete_callback op) (λ _. modify (enable ((own, ps) ∷ []))) s (rw on at h) in
      let same_options : s1.func_option ≡ s.func_option =
        sym (ap (λ p. p.1.func_option) e1) ∙ keep-delete_callback op s in
      sym (ap (λ p. enabled j p.1) e2)
      ∙ enabled-enable own j ps s1
      ∙ ap (λ o. if same own j then true else check_option j o) same_options

  -- The same of a case of the switch, which then clears the component's own parameters.
  enabled-case :
      (op own j : VsfOption) (ps : Params F) (f : VmSet F → VmSet F)
      → ((u : VmSet F) → (f u).func_option ≡ u.func_option)
      → (s s' : VmSet F) → enabled op s ≡ true
      → (reset_if_enabled op own ps >> modify f) s ≡ (ok tt, s')
      → enabled j s' ≡ (if same own j then true else enabled j s)
  enabled-case op own j ps f keeps s s' on h =
      let (u, s1, e1, e2) = >>=-eq-ok (reset_if_enabled op own ps) (λ _. modify f) s h in
      sym (ap (λ p. enabled j p.1) e2)
      ∙ ap (check_option j) (keeps s1)
      ∙ enabled-reset op own j ps s s1 on e1

  abbrev base_cleared : VmSet F → VmSet F
  base_cleared u = record u { vm_base = VmBaseData.clear_param u.vm_base }

  abbrev cpu_usage_cleared : VmSet F → VmSet F
  cpu_usage_cleared u = record u { vm_cpu_usage = VmCpuUsageModel.clear_param u.vm_cpu_usage }

  abbrev cache_miss_cleared : VmSet F → VmSet F
  cache_miss_cleared u = record u { vm_cache_miss = VmCacheMissModel.clear_param u.vm_cache_miss }

  -- Clearing the option of the base data, where that is enabled, enables the options of the CPU use and
  -- of the cache misses as well: the cases of the switch have no break.
  pub clear_option-enables :
      (s s' : VmSet F)
      → enabled op_vm_base s ≡ true
      → clear_option op_vm_base s ≡ (ok tt, s')
      → (enabled op_vm_base s' ≡ true)
        × (enabled op_vm_cpu_usage s' ≡ true)
        × (enabled op_vm_cache_miss s' ≡ true)
  unfolding clear_option same
  clear_option-enables s s' on h =
      let (u, s2, e2, e3) =
        >>=-eq-ok (clear_base op_vm_base >> clear_cpu_usage op_vm_base)
          (λ _. clear_cache_miss op_vm_base) s h in
      let (v, s1, e0, e1) =
        >>=-eq-ok (clear_base op_vm_base) (λ _. clear_cpu_usage op_vm_base) s e2 in
      let base : enabled op_vm_base s1 ≡ true =
        enabled-case op_vm_base op_vm_base op_vm_base base_defaults base_cleared (λ u. refl) s s1 on
          e0 in
      let base' : enabled op_vm_base s2 ≡ true =
        enabled-case op_vm_base op_vm_cpu_usage op_vm_base cpu_usage_defaults cpu_usage_cleared
          (λ u. refl) s1 s2 base e1
        ∙ base in
      let cpu : enabled op_vm_cpu_usage s2 ≡ true =
        enabled-case op_vm_base op_vm_cpu_usage op_vm_cpu_usage cpu_usage_defaults cpu_usage_cleared
          (λ u. refl) s1 s2 base e1 in
      (
        enabled-case op_vm_base op_vm_cache_miss op_vm_base cache_miss_defaults cache_miss_cleared
              (λ u. refl) s2 s' base' e3
            ∙ base',
        enabled-case op_vm_base op_vm_cache_miss op_vm_cpu_usage cache_miss_defaults
              cache_miss_cleared (λ u. refl) s2 s' base' e3
            ∙ cpu,
        enabled-case op_vm_base op_vm_cache_miss op_vm_cache_miss cache_miss_defaults
            cache_miss_cleared (λ u. refl) s2 s' base' e3,
      )

  options-reset :
      (op own : VsfOption) (ps : Params F) (s s' : VmSet F)
      → enabled op s ≡ true
      → reset_if_enabled op own ps s ≡ (ok tt, s')
      → s'.func_option ≡ enable_option ((own, ps) ∷ []) s.func_option
  options-reset op own ps s s' on h =
      let (u, s1, e1, e2) =
        >>=-eq-ok (delete_callback op) (λ _. modify (enable ((own, ps) ∷ []))) s (rw on at h) in
      sym (ap (λ p. p.1.func_option) e2)
      ∙ ap (enable_option ((own, ps) ∷ []))
          (sym (ap (λ p. p.1.func_option) e1) ∙ keep-delete_callback op s)

  found-enable :
      (own : VsfOption) (ps : Params F) (o : FuncOption F)
      → find own (enable_option ((own, ps) ∷ []) o).options ≡ some ps
  unfolding enable_option
  found-enable own ps o = ground (
    arith,
    find-put option_less-IsOrder own own ps o.options,
    same_iff option_less-IsOrder own own,
  )

  null_callback :
      (s : VmSet F)
      → (set_param_by_option op_vm_cache_miss cache_miss_defaults s).0 ≡ err null_pointer
  unfolding set_param_by_option set_each set_cache_miss_param get_int get_pointer
  null_callback s = refl

  init_option-found :
      (s : VmSet F) (ps : Params F)
      → find op_vm_cache_miss s.func_option.options ≡ some ps
      → init_option op_vm_cache_miss start_cache_miss s
        ≡ (set_param_by_option op_vm_cache_miss ps >> modify start_cache_miss) s
  unfolding check_option get_param
  init_option-found s ps h = rw h refl

  -- Where the option of the cache misses is enabled and has been cleared, the next initialization of
  -- its component dereferences the null callback that the clearing has stored.
  pub init_option-null :
      (s s' : VmSet F)
      → enabled op_vm_cache_miss s ≡ true
      → clear_option op_vm_cache_miss s ≡ (ok tt, s')
      → (init_option op_vm_cache_miss start_cache_miss s').0 ≡ err null_pointer
  unfolding clear_option
  init_option-null s s' on h =
      let (u, s1, e1, e2) =
        >>=-eq-ok (reset_if_enabled op_vm_cache_miss op_vm_cache_miss cache_miss_defaults)
          (λ _. modify cache_miss_cleared) s h in
      let options : s'.func_option
          ≡ enable_option ((op_vm_cache_miss, cache_miss_defaults) ∷ []) s.func_option =
        sym (ap (λ p. p.1.func_option) e2)
        ∙ options-reset op_vm_cache_miss op_vm_cache_miss cache_miss_defaults s s1 on e1 in
      let stored : find op_vm_cache_miss s'.func_option.options ≡ some cache_miss_defaults =
        ap (λ o. find op_vm_cache_miss o.options) options
        ∙ found-enable op_vm_cache_miss cache_miss_defaults s.func_option in
      let e = null_callback s' in
      let r : Result (Unit {0}) × VmSet F =
        set_param_by_option op_vm_cache_miss cache_miss_defaults s' in
      ap (λ p. p.0) (init_option-found s' cache_miss_defaults stored)
      ∙ ap (λ p. p.0)
          (bind-err (set_param_by_option op_vm_cache_miss cache_miss_defaults)
            (λ _. modify start_cache_miss) s' (λ i. (e i, r.1)))
