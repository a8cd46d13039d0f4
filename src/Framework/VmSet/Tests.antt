-- ===== src/Framework/VmSet/Tests.antt =====
-- The theorems on `VmSet` applied to two options with a callback each.
use libvsf.Prelude.{ℕ, ◌≡◌, refl, true, false, [], ◌∷◌}
use libvsf.Prelude.Exec.{ok}
use libvsf.Container.Order.{same}
use libvsf.Container.Map.{find, put}
use libvsf.Container.Set.{member}
use libvsf.Utils.Options.{option_less, op_vm_base, op_vm_cpu_usage, op_vm_cache_miss, callback}
use libvsf.Utils.ParamVal.{holding, pval, get_pointer}
use libvsf.Utils.FuncOption.{Params, check_option, enable_option, get_param}
use libvsf.Vm.VmBase.Data as VmBaseData
use libvsf.Vm.VmCpuUsage as VmCpuUsageModel
use libvsf.Vm.VmCacheMiss as VmCacheMissModel
use libvsf.Vm.CpuUsage.Data as CpuUsageData
use libvsf.Vm.CacheMiss.Sample as Sample
use libvsf.Framework.VmSet.{
  VmSet, enabled, delete_callbacks, delete_callback, clear_option, base_defaults,
  cpu_usage_defaults, cache_miss_defaults, enable,
}
use libvsf.Framework.VmSet.Faults.{clear_option-enables}

abbrev callback_at : ℕ → Params ℕ
callback_at p = (callback, holding (pval p)) ∷ []

abbrev two_options : VmSet ℕ
two_options = record {
  func_option = record {
    options = (op_vm_base, callback_at 11) ∷ (op_vm_cache_miss, callback_at 12) ∷ [];
  };
  heap = 11 ∷ 12 ∷ [];
  vm_base = VmBaseData.init;
  vm_cpu_usage = VmCpuUsageModel.init (CpuUsageData.init 2);
  vm_cache_miss = VmCacheMissModel.init Sample.init;
  vm_base_runs = true;
  vm_cpu_usage_runs = false;
  vm_cache_miss_runs = true;
}

base_enabled : enabled op_vm_base two_options ≡ true
unfolding check_option find same
base_enabled = refl

cache_miss_enabled : enabled op_vm_cache_miss two_options ≡ true
unfolding check_option find same
cache_miss_enabled = refl

-- The state after the callback has been deleted and the defaults have been stored.
abbrev cache_miss_cleared : VmSet ℕ
cache_miss_cleared = record (enable ((op_vm_cache_miss, cache_miss_defaults) ∷ []) two_options) {
  heap = 11 ∷ [];
  vm_cache_miss = VmCacheMissModel.clear_param two_options.vm_cache_miss;
}

clears_cache_miss : clear_option op_vm_cache_miss two_options ≡ (ok tt, cache_miss_cleared)
unfolding clear_option delete_callback delete_callbacks check_option get_param get_pointer find same
    member
clears_cache_miss = refl

abbrev base_cleared : VmSet ℕ
base_cleared = record two_options {
  func_option = enable_option ((op_vm_cache_miss, cache_miss_defaults) ∷ []) (
      enable_option ((op_vm_cpu_usage, cpu_usage_defaults) ∷ [])
        (enable_option ((op_vm_base, base_defaults) ∷ []) two_options.func_option));
  heap = 12 ∷ [];
  vm_base = VmBaseData.clear_param two_options.vm_base;
  vm_cpu_usage = VmCpuUsageModel.clear_param two_options.vm_cpu_usage;
  vm_cache_miss = VmCacheMissModel.clear_param two_options.vm_cache_miss;
}

clears_base : clear_option op_vm_base two_options ≡ (ok tt, base_cleared)
unfolding clear_option delete_callback delete_callbacks check_option get_param get_pointer
    enable_option put find same member
clears_base = refl

clear_option-enables_example :
    (enabled op_vm_base base_cleared ≡ true)
    × (enabled op_vm_cpu_usage base_cleared ≡ true)
    × (enabled op_vm_cache_miss base_cleared ≡ true)
clear_option-enables_example =
    clear_option-enables two_options base_cleared base_enabled clears_base
