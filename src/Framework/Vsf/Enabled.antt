-- ===== src/Framework/Vsf/Enabled.antt =====
-- Which options are enabled after the calls of `Vsf`.
use libvsf.Prelude.{◌≡◌, refl, sym, ap, ◌∙◌, false, [], ◌∷◌, Bool-cases, inl, inr}
use libvsf.Prelude.Exec.{
  ok, err, framework_init_more_than_twice, dangling_pointer, of_result, modify, ◌>>◌, bind-keeps,
  >>=-eq-ok,
}
use libvsf.Container.Map.{Map}
use libvsf.Utils.Options.{VsfOption, option_less, op_hs_node_test_dist}
use libvsf.Utils.FuncOption.{Params, enable_option}
use libvsf.Host.NodeTestDist as TestDist
use libvsf.Framework.VmSet.Leaves.{then_enable, set_param-options}
use libvsf.Framework.Host as Hosts
use libvsf.Framework.Host.{Host, set_micro_param}
use libvsf.Framework.Vsf as Model
use libvsf.Framework.Vsf.{
  Vsf, options_of, on_vm_set, host_of, put_host, run_host, on_host, is_vm_option, set_one, init,
}

module _ {F : Type 0} where
  host_set_options-Leaves :
      (ops : Map VsfOption (Params F)) (s : Host F)
      → (Hosts.set_options ops s).1.func_option ≡ s.func_option
  unfolding Hosts.set_options
  host_set_options-Leaves [] s = refl
  host_set_options-Leaves ((op_hs_node_test_dist, ps) ∷ ops) s =
      bind-keeps (λ (u : Host F). u.func_option) (set_micro_param ps) (λ _. Hosts.set_options ops)
        (λ _. host_set_options-Leaves ops) s
      ∙ bind-keeps (λ (u : Host F). u.func_option)
          (of_result (Hosts.option_param_to_micro_param ps))
          (λ m. Hosts.on_test_dist (modify (TestDist.set_param m))) (λ m u. refl) s
  host_set_options-Leaves ((_, ps) ∷ ops) s = host_set_options-Leaves ops s

  host_set_param-options :
      (ops : Map VsfOption (Params F)) (s : Host F)
      → (Hosts.set_param ops s).0 ≡ ok tt
      → (Hosts.set_param ops s).1.func_option ≡ enable_option ops s.func_option
  unfolding Hosts.set_param
  host_set_param-options ops s h =
      then_enable (λ u. u.func_option) (Hosts.set_options ops) (Hosts.enable ops) ops
        (host_set_options-Leaves ops) (λ u. refl) s h

  set_one-options :
      (op : VsfOption) (ps : Params F) (v : Vsf F)
      → (set_one op ps v).0 ≡ ok tt
      → options_of (set_one op ps v).1 ≡ enable_option ((op, ps) ∷ []) (options_of v)
  unfolding set_one
  set_one-options op ps v h = elim (Bool-cases (is_vm_option op)) [
    | inl e ↦ rw e (set_param-options ((op, ps) ∷ []) v.vm_set (rw e at h))
    | inr e ↦ elim (Bool-cases v.host_ready) [
      | inl r ↦ rw (e, r) (host_set_param-options ((op, ps) ∷ []) (host_of v) (rw (e, r) at h))
      | inr r ↦ cc (rw (e, r) at h)
    ]
  ]

  -- Setting parameters enables their options one after the other, those of the host and those of the
  -- virtual machines alike: if the call returns, the options are those that one call of
  -- `enable_option` with all of them makes.
  pub set_param-enable_option :
      (ops : Map VsfOption (Params F)) (v : Vsf F)
      → (Model.set_param ops v).0 ≡ ok tt
      → options_of (Model.set_param ops v).1 ≡ enable_option ops (options_of v)
  unfolding Model.set_param enable_option
  set_param-enable_option [] v h = refl
  set_param-enable_option ((op, ps) ∷ ops) v h =
      let whole = λ (u : Vsf F). (set_one op ps >> Model.set_param ops) u in
      let (a, v1, e, e') =
        >>=-eq-ok (set_one op ps) (λ _. Model.set_param ops) v (λ i. (h i, (whole v).1)) in
      let first : options_of v1 ≡ enable_option ((op, ps) ∷ []) (options_of v) =
        ap (λ p. options_of p.1) (sym e) ∙ set_one-options op ps v (ap (λ p. p.0) e) in
      ap (λ p. options_of p.1) (sym e')
      ∙ set_param-enable_option ops v1 (ap (λ p. p.0) e')
      ∙ ap (enable_option ops) first

  -- The library is initialized once: any further call throws, and enables no option.
  pub init-init :
      (ops ops' : Map VsfOption (Params F)) (v : Vsf F)
      → v.inited_cnt ≡ 0
      → let (r, v1) = init ops v in
        let (r', v2) = init ops' v1 in
        (r ≡ ok tt)
        × (options_of v1 ≡ enable_option ops (options_of v))
        × (r' ≡ err framework_init_more_than_twice)
        × (options_of v2 ≡ options_of v1)
  unfolding init
  init-init ops ops' v h = rw h (refl, refl, refl, refl)

  -- But an option of the host that is set before `init_host` goes through a pointer that is not set.
  pub set_param-no_host :
      (op : VsfOption) (ps : Params F) (ops : Map VsfOption (Params F)) (v : Vsf F)
      → is_vm_option op ≡ false
      → v.host_ready ≡ false
      → Model.set_param ((op, ps) ∷ ops) v ≡ (err dangling_pointer, v)
  unfolding Model.set_param set_one
  set_param-no_host op ps ops v h k = rw (h, k) refl
