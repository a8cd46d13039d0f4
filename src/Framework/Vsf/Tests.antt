-- ===== src/Framework/Vsf/Tests.antt =====
-- The theorems on `Vsf` applied to an option of the host and one of the virtual machines, and to two
-- processors.
use libvsf.Prelude.{ℕ, ◌≡◌, refl, true, false, [], ◌∷◌}
use libvsf.Prelude.Int.{pos}
use libvsf.Prelude.Exec.{ok}
use libvsf.Container.Order.{same}
use libvsf.Container.Map.{Map, find, put}
use libvsf.Container.Order.{nat_less}
use libvsf.Utils.Options.{
  VsfOption, option_less, op_hs_node_test_dist, op_vm_cpu_usage, loop_interval, loop,
}
use libvsf.Utils.ParamVal.{holding, ival, get_int}
use libvsf.Utils.FuncOption.{Params, FuncOption, check_option, enable_option}
use libvsf.Vm.VmBase.Data as VmBaseData
use libvsf.Vm.VmCpuUsage as VmCpuUsageModel
use libvsf.Vm.VmCacheMiss as VmCacheMissModel
use libvsf.Vm.CpuUsage.Data as CpuUsageData
use libvsf.Vm.CacheMiss.Sample as Sample
use libvsf.Framework.VmSet.{
  VmSet, delete_callback, delete_old, set_options, set_param_by_option, set_each,
  set_cpu_usage_param,
}
use libvsf.Framework.VmSet as Vms
use libvsf.Host.NodeTestDist as TestDist
use libvsf.Framework.Host as Hosts
use libvsf.Framework.Host.{Host, read_micro_params, read_micro_param, option_param_to_micro_param}
use libvsf.Framework.Vsf.{Vsf, options_of, set_one, set_param}
use libvsf.Framework.Vsf.Enabled.{set_param-enable_option}

abbrev nothing : FuncOption ℕ
nothing = record { options = [] }

abbrev host : Host ℕ
host = record {
  func_option = nothing;
  node_cpu = record {
    node_socket = [];
    node_core = [];
    node_hpthread = [];
    socket_core = [];
    socket_hpthread = [];
    core_hpthread = [];
    hpthread = [];
    has_data = false;
  };
  node_sys_dist = record { node_sys_dist = []; has_data = false };
  node_test_dist = record {
    node_test_dist = [];
    has_data = false;
    param = TestDist.default_param;
    last_param = TestDist.default_param;
  };
}

abbrev vsf : Vsf ℕ
vsf = record {
  vm_set = record {
    func_option = nothing;
    heap = [];
    vm_base = VmBaseData.init;
    vm_cpu_usage = VmCpuUsageModel.init (CpuUsageData.init 2);
    vm_cache_miss = VmCacheMissModel.init Sample.init;
    vm_base_runs = false;
    vm_cpu_usage_runs = false;
    vm_cache_miss_runs = false;
  };
  host = host;
  host_ready = true;
  cpu_mig = record { cpu_migs = []; cpu_num = 4 };
  inited_cnt = 1;
}

abbrev two_options : Map VsfOption (Params ℕ)
two_options =
    (op_hs_node_test_dist, (loop, holding (ival (pos 5))) ∷ [])
    ∷ (op_vm_cpu_usage, (loop_interval, holding (ival (pos 100))) ∷ [])
    ∷ []

set-two_options : (set_param two_options vsf).0 ≡ ok tt
unfolding set_param set_one Hosts.set_param Hosts.set_options read_micro_params read_micro_param
    option_param_to_micro_param get_int Vms.set_param set_options set_param_by_option set_each
    set_cpu_usage_param enable_option check_option find same put delete_callback delete_old
set-two_options = refl

set_param-enable_option_example :
    options_of (set_param two_options vsf).1 ≡ enable_option two_options (options_of vsf)
set_param-enable_option_example = set_param-enable_option two_options vsf set-two_options
