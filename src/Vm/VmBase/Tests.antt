-- ===== src/Vm/VmBase/Tests.antt =====
-- The theorems on virtual machines applied to a small system.
use libvsf.Prelude.{true, none, some, [], ◌∷◌}
use libvsf.Container.Order.{nat_less}
use libvsf.Container.Set.{Set}
use libvsf.Utils.StrTools.{Text}
use libvsf.Vm.VmId.{VmId, vm_id_less}
use libvsf.Vm.VmBase.Data.{VmBase, Found, init}

-- "1", "02", "03" and "42"
abbrev t_1 : Text
t_1 = 49 ∷ []

abbrev t_02 : Text
t_02 = 48 ∷ 50 ∷ []

abbrev t_03 : Text
t_03 = 48 ∷ 51 ∷ []

abbrev t_42 : Text
t_42 = 52 ∷ 50 ∷ []

abbrev found : Found
found = record {
  now = 1000;
  ps = λ cmd. [];
  vcpu_dir = λ name. name;
  scandir = λ dir accepts. some (t_42 ∷ t_1 ∷ []);
  tasks = λ name dir. none;
}

abbrev machine : VmId
machine = record { start_timestamp = 500; pid = 42 }

abbrev base : VmBase
base = record init { has_data = true; stable_vmthread_ids = (machine, 42 ∷ []) ∷ [] }
