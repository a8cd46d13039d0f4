-- ===== src/Framework/VmSet/Leaves.antt =====
-- The options after the calls of `VmSet`: only `enable_option` changes them.
use libvsf.Prelude.{◌≡◌, refl, sym, ap, ◌∙◌, some, [], ◌∷◌, arith}
use libvsf.Prelude.Int.{pos_part}
use libvsf.Prelude.Exec.{ok, Exec, of_result, modify, ◌>>=◌, ◌>>◌, bind-keeps, >>=-eq-ok}
use libvsf.Container.Map.{Map}
use libvsf.Utils.Options.{
  VsfOption, OptionParam, option_less, op_vm_base, op_vm_cpu_usage, op_vm_cache_miss, vm_cmd,
  loop_interval, sample_interval, callback,
}
use libvsf.Utils.ParamVal.{OptionParamVal, get_string, get_int, get_pointer}
use libvsf.Utils.FuncOption.{Params, FuncOption, enable_option}
use libvsf.Vm.VmBase.Data as VmBaseData
use libvsf.Vm.VmCpuUsage as VmCpuUsageModel
use libvsf.Vm.VmCacheMiss as VmCacheMissModel
use libvsf.Framework.VmSet as Vms
use libvsf.Framework.VmSet.{
  VmSet, read_pointer, callback_of, set_base_param, set_cpu_usage_param, set_cache_miss_param,
  set_each, set_param_by_option, delete_old, set_options, set_param, on_base, on_cpu_usage,
  on_cache_miss,
}
use libvsf.Framework.VmSet.Faults.{keep-delete_callback}

module _ {F : Type 0} where
  -- The calls of `VmSet` that leave the options alone, on every outcome.
  abbrev Leaves : {A : Type 0} → Exec (VmSet F) A → Type 0
  Leaves m = (s : VmSet F) → (m s).1.func_option ≡ s.func_option

  bind-Leaves :
      {A B : Type 0} (m : Exec (VmSet F) A) (f : A → Exec (VmSet F) B)
      → Leaves m
      → ((a : A) → Leaves (f a))
      → Leaves (m >>= f)
  bind-Leaves m f h k s = bind-keeps (λ (u : VmSet F). u.func_option) m f k s ∙ h s

  callback_of-Leaves : (v : OptionParamVal F) → Leaves (callback_of v)
  callback_of-Leaves v =
      bind-Leaves (of_result (get_pointer v)) (λ p. read_pointer p >>= λ f s. (ok (some f), s))
        (λ s. refl)
        (λ p.
          bind-Leaves (read_pointer p) (λ f s. (ok (some f), s)) (λ s. ground arith) (λ f s. refl))

  set_base_param-Leaves : (p : OptionParam) (v : OptionParamVal F) → Leaves (set_base_param p v)
  unfolding set_base_param
  set_base_param-Leaves vm_cmd v s =
      bind-Leaves (of_result (get_string v)) (λ cmd. on_base (VmBaseData.set_vm_cmd cmd))
        (λ s. refl) (λ a s. refl) s
  set_base_param-Leaves loop_interval v s =
      bind-Leaves (of_result (get_int v)) (λ i. on_base (VmBaseData.set_interval (pos_part i)))
        (λ s. refl) (λ a s. refl) s
  set_base_param-Leaves callback v s =
      bind-Leaves (callback_of v) (λ f. on_base (VmBaseData.set_callback f)) (callback_of-Leaves v)
        (λ a s. refl) s
  set_base_param-Leaves _ v s = refl

  set_cpu_usage_param-Leaves :
      (p : OptionParam) (v : OptionParamVal F) → Leaves (set_cpu_usage_param p v)
  unfolding set_cpu_usage_param
  set_cpu_usage_param-Leaves loop_interval v s =
      bind-Leaves (of_result (get_int v))
        (λ i. on_cpu_usage (VmCpuUsageModel.set_interval (pos_part i))) (λ s. refl) (λ a s. refl) s
  set_cpu_usage_param-Leaves callback v s =
      bind-Leaves (callback_of v) (λ f. on_cpu_usage (VmCpuUsageModel.set_callback f))
        (callback_of-Leaves v) (λ a s. refl) s
  set_cpu_usage_param-Leaves _ v s = refl

  set_cache_miss_param-Leaves :
      (p : OptionParam) (v : OptionParamVal F) → Leaves (set_cache_miss_param p v)
  unfolding set_cache_miss_param
  set_cache_miss_param-Leaves loop_interval v s =
      bind-Leaves (of_result (get_int v))
        (λ i. on_cache_miss (VmCacheMissModel.set_loop_interval (pos_part i))) (λ s. refl)
        (λ a s. refl) s
  set_cache_miss_param-Leaves sample_interval v s =
      bind-Leaves (of_result (get_int v))
        (λ i. on_cache_miss (VmCacheMissModel.set_sample_interval (pos_part i))) (λ s. refl)
        (λ a s. refl) s
  set_cache_miss_param-Leaves callback v s =
      bind-Leaves (callback_of v) (λ f. on_cache_miss (VmCacheMissModel.set_callback f))
        (callback_of-Leaves v) (λ a s. refl) s
  set_cache_miss_param-Leaves _ v s = refl

  set_each-Leaves :
      (one : OptionParam → OptionParamVal F → Exec (VmSet F) (Unit {0}))
      → ((p : OptionParam) (v : OptionParamVal F) → Leaves (one p v))
      → (ps : Params F) → Leaves (set_each one ps)
  unfolding set_each
  set_each-Leaves one h [] s = refl
  set_each-Leaves one h ((p, v) ∷ ps) s =
      bind-Leaves (one p v) (λ _. set_each one ps) (h p v) (λ _. set_each-Leaves one h ps) s

  set_param_by_option-Leaves : (op : VsfOption) (ps : Params F) → Leaves (set_param_by_option op ps)
  unfolding set_param_by_option
  set_param_by_option-Leaves op_vm_base ps s =
      set_each-Leaves set_base_param set_base_param-Leaves ps s
  set_param_by_option-Leaves op_vm_cpu_usage ps s =
      set_each-Leaves set_cpu_usage_param set_cpu_usage_param-Leaves ps s
  set_param_by_option-Leaves op_vm_cache_miss ps s =
      set_each-Leaves set_cache_miss_param set_cache_miss_param-Leaves ps s
  set_param_by_option-Leaves _ ps s = refl

  delete_old-Leaves : (op : VsfOption) → Leaves (delete_old {F = F} op)
  delete_old-Leaves op s = ground (arith, keep-delete_callback op s)

  set_options-Leaves : (ops : Map VsfOption (Params F)) → Leaves (set_options ops)
  unfolding set_options
  set_options-Leaves [] s = refl
  set_options-Leaves ((op, ps) ∷ ops) s =
      bind-Leaves (delete_old op >> set_param_by_option op ps) (λ _. set_options ops)
        (bind-Leaves (delete_old op) (λ _. set_param_by_option op ps) (delete_old-Leaves op)
          (λ _. set_param_by_option-Leaves op ps))
        (λ _. set_options-Leaves ops) s

  -- A call that ends by enabling the options, and leaves them alone before.
  pub then_enable :
      {S : Type 0} (q : S → FuncOption F) (m : Exec S (Unit {0})) (f : S → S)
      (ops : Map VsfOption (Params F))
      → ((s : S) → q (m s).1 ≡ q s)
      → ((s : S) → q (f s) ≡ enable_option ops (q s))
      → (s : S) → ((m >> modify f) s).0 ≡ ok tt
      → q ((m >> modify f) s).1 ≡ enable_option ops (q s)
  then_enable q m f ops leaves enables s h =
      let (a, s1, e, e') = >>=-eq-ok m (λ _. modify f) s (λ i. (h i, ((m >> modify f) s).1)) in
      ap (λ p. q p.1) (sym e')
      ∙ enables s1
      ∙ ap (enable_option ops) (ap (λ p. q p.1) (sym e) ∙ leaves s)

  pub set_param-options :
      (ops : Map VsfOption (Params F)) (s : VmSet F)
      → (set_param ops s).0 ≡ ok tt
      → (set_param ops s).1.func_option ≡ enable_option ops s.func_option
  unfolding set_param
  set_param-options ops s h =
      then_enable (λ u. u.func_option) (set_options ops) (Vms.enable ops) ops
        (set_options-Leaves ops) (λ u. refl) s h
