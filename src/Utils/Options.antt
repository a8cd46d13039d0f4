-- ===== src/Utils/Options.antt =====
-- The options and their parameters (include/framework/define_func_option.h), in the order of the
-- enumerations.
use libvsf.Prelude.{ℕ, ◌≡◌, refl, sym, ap, ◌∙◌, [], ◌∷◌, ltb, get_or, get_elem?}
use libvsf.Container.Order.{Less, IsOrder, nat-IsOrder}

pub data VsfOption : Type 0 where
  op_hs_node_cpu op_hs_total_mem_size op_hs_node_sys_dist op_hs_node_test_dist : VsfOption
  op_hs_cpu_usage op_hs_used_mem_size separator_for_hs_and_vm op_vm_vnode : VsfOption
  op_vm_mem_policy op_vm_base op_vm_cpu_bindinfo op_vm_mem_bindinfo : VsfOption
  op_vm_cpu_usage op_vm_cache_miss op_vm_mem_sample op_vm_used_mem_size : VsfOption

-- The value of the constant, and the constant of a value.
abbrev pub option_value : VsfOption → ℕ
option_value op_hs_node_cpu = 0
option_value op_hs_total_mem_size = 1
option_value op_hs_node_sys_dist = 2
option_value op_hs_node_test_dist = 3
option_value op_hs_cpu_usage = 4
option_value op_hs_used_mem_size = 5
option_value separator_for_hs_and_vm = 6
option_value op_vm_vnode = 7
option_value op_vm_mem_policy = 8
option_value op_vm_base = 9
option_value op_vm_cpu_bindinfo = 10
option_value op_vm_mem_bindinfo = 11
option_value op_vm_cpu_usage = 12
option_value op_vm_cache_miss = 13
option_value op_vm_mem_sample = 14
option_value op_vm_used_mem_size = 15

abbrev option_of : ℕ → VsfOption
option_of n =
    get_or
      (get_elem?
        (op_hs_node_cpu ∷ op_hs_total_mem_size ∷ op_hs_node_sys_dist ∷ op_hs_node_test_dist
          ∷ op_hs_cpu_usage ∷ op_hs_used_mem_size ∷ separator_for_hs_and_vm ∷ op_vm_vnode
          ∷ op_vm_mem_policy ∷ op_vm_base ∷ op_vm_cpu_bindinfo ∷ op_vm_mem_bindinfo
          ∷ op_vm_cpu_usage ∷ op_vm_cache_miss ∷ op_vm_mem_sample ∷ op_vm_used_mem_size ∷ [])
        n)
      op_vm_used_mem_size

option_of-option_value : (c : VsfOption) → option_of (option_value c) ≡ c
option_of-option_value op_hs_node_cpu = refl
option_of-option_value op_hs_total_mem_size = refl
option_of-option_value op_hs_node_sys_dist = refl
option_of-option_value op_hs_node_test_dist = refl
option_of-option_value op_hs_cpu_usage = refl
option_of-option_value op_hs_used_mem_size = refl
option_of-option_value separator_for_hs_and_vm = refl
option_of-option_value op_vm_vnode = refl
option_of-option_value op_vm_mem_policy = refl
option_of-option_value op_vm_base = refl
option_of-option_value op_vm_cpu_bindinfo = refl
option_of-option_value op_vm_mem_bindinfo = refl
option_of-option_value op_vm_cpu_usage = refl
option_of-option_value op_vm_cache_miss = refl
option_of-option_value op_vm_mem_sample = refl
option_of-option_value op_vm_used_mem_size = refl

instance abbrev pub option_less : Less VsfOption
option_less = record { less = λ a b. ltb (option_value a) (option_value b) }

pub option_less-IsOrder : IsOrder option_less
option_less-IsOrder = record {
  irrefl = λ a. nat-IsOrder.irrefl (option_value a);
  trans = λ a b c. nat-IsOrder.trans (option_value a) (option_value b) (option_value c);
  connected = λ a b h k.
      sym (option_of-option_value a)
      ∙ ap option_of (nat-IsOrder.connected (option_value a) (option_value b) h k)
      ∙ option_of-option_value b;
}

pub data OptionParam : Type 0 where
  path size_in_mb workload_type loop : OptionParam
  vm_cmd loop_interval sample_interval callback : OptionParam

-- The value of the constant, and the constant of a value.
abbrev pub param_value : OptionParam → ℕ
param_value path = 0
param_value size_in_mb = 1
param_value workload_type = 2
param_value loop = 3
param_value vm_cmd = 4
param_value loop_interval = 5
param_value sample_interval = 6
param_value callback = 7

abbrev param_of : ℕ → OptionParam
param_of n =
    get_or
      (get_elem?
        (path ∷ size_in_mb ∷ workload_type ∷ loop ∷ vm_cmd ∷ loop_interval ∷ sample_interval
          ∷ callback ∷ [])
        n)
      callback

param_of-param_value : (c : OptionParam) → param_of (param_value c) ≡ c
param_of-param_value path = refl
param_of-param_value size_in_mb = refl
param_of-param_value workload_type = refl
param_of-param_value loop = refl
param_of-param_value vm_cmd = refl
param_of-param_value loop_interval = refl
param_of-param_value sample_interval = refl
param_of-param_value callback = refl

instance abbrev pub param_less : Less OptionParam
param_less = record { less = λ a b. ltb (param_value a) (param_value b) }

pub param_less-IsOrder : IsOrder param_less
param_less-IsOrder = record {
  irrefl = λ a. nat-IsOrder.irrefl (param_value a);
  trans = λ a b c. nat-IsOrder.trans (param_value a) (param_value b) (param_value c);
  connected = λ a b h k.
      sym (param_of-param_value a)
      ∙ ap param_of (nat-IsOrder.connected (param_value a) (param_value b) h k)
      ∙ param_of-param_value b;
}
