-- ===== src/Framework/Host.antt =====
-- src/framework/host.cpp: `Host` refreshes the data of the host by the options, and passes the
-- parameters of the benchmark on. The options are those of the singleton FuncOption.
pub mod Getters
pub mod MicroParams
use libvsf.Prelude.{ℕ, Bool, true, false, ◌&&◌, Option, none, some, List, [], ◌∷◌, if◌then◌else◌}
use libvsf.Prelude.Int.{ℤ}
use libvsf.Prelude.Double.{Double}
use libvsf.Prelude.Exec.{Result, ok, err, Exec, pure, gets, of_result, when, modify, ◌>>=◌, ◌>>◌}
use libvsf.Container.Map.{Map, put}
use libvsf.Utils.StrTools.{Text}
use libvsf.Utils.Options.{
  VsfOption, OptionParam, option_less, param_less, op_hs_node_cpu, op_hs_node_sys_dist,
  op_hs_node_test_dist, path, size_in_mb, workload_type, loop,
}
use libvsf.Utils.ParamVal.{OptionParamVal, holding, sval, cval, ival, get_string, get_char, get_int}
use libvsf.Utils.FuncOption.{Params, FuncOption, enable_option, check_option, get_param}
use libvsf.Host.NodeCpu as Cpu
use libvsf.Host.NodeCpu.{NodeCpu, Files}
use libvsf.Host.NodeCpu.Getters.{get_node_num}
use libvsf.Host.NodeSysDist as SysDist
use libvsf.Host.NodeSysDist.{NodeSysDist, Distances, get_node_sys_dist}
use libvsf.Host.NodeTestDist as TestDist
use libvsf.Host.NodeTestDist.{
  NodeTestDist, MicroParam, default_param, Bench, begin_test, up_to_date, run_test,
}

-- The state of the singletons that `Host` calls.
pub record Host (F : Type 0) : Type 0 where
  pub func_option : FuncOption F
  pub node_cpu : NodeCpu
  pub node_sys_dist : NodeSysDist
  pub node_test_dist : NodeTestDist

-- What the system answers: its files, `numactl`, and the benchmark.
pub record HostSystem (d : Double) : Type 0 where
  pub files : Files
  pub node_dir : Text
  pub numactl : Option (List Text)
  pub bench : Bench d

abbrev pub returned : Result (Unit {0}) × MicroParam → Result MicroParam
returned (ok _, m) = ok m
returned (err e, m) = err e

module _ {F : Type 0} where
  abbrev pub on_cpu : {A : Type 0} → Exec NodeCpu A → Exec (Host F) A
  on_cpu m s = let (r, c) = m s.node_cpu in (r, record s { node_cpu = c })

  abbrev pub on_sys_dist : {A : Type 0} → Exec NodeSysDist A → Exec (Host F) A
  on_sys_dist m s = let (r, c) = m s.node_sys_dist in (r, record s { node_sys_dist = c })

  abbrev pub on_test_dist : {A : Type 0} → Exec NodeTestDist A → Exec (Host F) A
  on_test_dist m s = let (r, c) = m s.node_test_dist in (r, record s { node_test_dist = c })

  -- One parameter of the benchmark.
  unfoldable pub read_micro_param : OptionParam → OptionParamVal F → Exec MicroParam (Unit {0})
  read_micro_param p v = elim p [
    | path ↦ of_result (get_string v) >>= λ x. modify (λ m. record m { path = x })
    | size_in_mb ↦ of_result (get_int v) >>= λ x. modify (λ m. record m { size_in_mb = x })
    | workload_type ↦ of_result (get_char v) >>= λ x. modify (λ m. record m { type = x })
    | loop ↦ of_result (get_int v) >>= λ x. modify (λ m. record m { loop = x })
    | _ ↦ pure tt
  ]

  unfoldable pub read_micro_params : Params F → Exec MicroParam (Unit {0})
  read_micro_params [] = pure tt
  read_micro_params ((p, v) ∷ ps) = read_micro_param p v >> read_micro_params ps

  unfoldable pub option_param_to_micro_param : Params F → Result MicroParam
  option_param_to_micro_param ps = returned (read_micro_params ps default_param)

  -- Each entry is made as an `int`, and assigned a value.
  unfoldable pub micro_param_to_option_param : MicroParam → Params F
  micro_param_to_option_param m = put loop (holding (ival m.loop)) (
      put workload_type (holding (cval m.type))
        (put size_in_mb (holding (ival m.size_in_mb)) (put path (holding (sval m.path)) [])))

  abbrev pub set_micro_param : Params F → Exec (Host F) (Unit {0})
  set_micro_param ps = do
    m ← of_result (option_param_to_micro_param ps)
    on_test_dist (modify (TestDist.set_param m))

  unfoldable pub set_options : Map VsfOption (Params F) → Exec (Host F) (Unit {0})
  set_options [] = pure tt
  set_options ((op, ps) ∷ ops) =
      elim op [ op_hs_node_test_dist ↦ set_micro_param ps | _ ↦ pure tt ] >> set_options ops

  abbrev pub enable : Map VsfOption (Params F) → Host F → Host F
  enable ops s = record s { func_option = enable_option ops s.func_option }

  unfoldable pub set_param : Map VsfOption (Params F) → Exec (Host F) (Unit {0})
  set_param ops = set_options ops >> modify (enable ops)

  abbrev pub clear_test_dist : Host F → Host F
  clear_test_dist s =
      let s' =
        if check_option op_hs_node_test_dist s.func_option
        then enable ((op_hs_node_test_dist, micro_param_to_option_param default_param) ∷ []) s
        else s in
      record s' { node_test_dist = TestDist.clear_param s'.node_test_dist }

  unfoldable pub clear_param : List VsfOption → Host F → Host F
  clear_param [] s = s
  clear_param (op ∷ ops) s =
      clear_param ops (elim op [ op_hs_node_test_dist ↦ clear_test_dist s | _ ↦ s ])

module _ (d : Double) (sys : HostSystem d) where
  unfoldable pub node_sys_dist : Exec (Host d.F) Distances
  node_sys_dist = on_sys_dist (get_node_sys_dist sys.numactl)

  -- A measurement asks `NodeCpu` for the number of nodes; an answer from the last one does not.
  unfoldable pub node_test_dist : Exec (Host d.F) Distances
  node_test_dist s =
      if up_to_date s.node_test_dist
      then (ok s.node_test_dist.node_test_dist, s)
      else (do
        on_test_dist (modify begin_test)
        n ← on_cpu (get_node_num sys.files sys.node_dir)
        on_test_dist (run_test d n sys.bench))
          s

  abbrev pub enabled : VsfOption → Host d.F → Bool
  enabled op s = check_option op s.func_option

  abbrev pub when_enabled : VsfOption → Exec (Host d.F) (Unit {0}) → Exec (Host d.F) (Unit {0})
  when_enabled op m s = when (enabled op s) m s

  -- `Host::Host`
  unfoldable pub construct : Exec (Host d.F) (Unit {0})
  construct = do
    when_enabled op_hs_node_cpu (on_cpu (Cpu.refresh sys.files sys.node_dir))
    when_enabled op_hs_node_sys_dist (node_sys_dist >> pure tt)
    when_enabled op_hs_node_test_dist (do
      ps ← gets (λ s. (get_param op_hs_node_test_dist s.func_option).0)
      set_micro_param ps
      node_test_dist
      pure tt)
