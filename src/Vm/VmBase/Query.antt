-- ===== src/Vm/VmBase/Query.antt =====
-- The getters of `VmBase`. `none` is a query that waits for the refreshing thread; one that runs it
-- itself is a refresh first.
use libvsf.Prelude.{
  ℕ, Bool, true, false, Option, none, some, List, [], ◌∷◌, if◌then◌else◌, get_or, length,
}
use libvsf.Prelude.Int.{ℤ, minus_one}
use libvsf.Prelude.Exec.{Result, ok, err, invalid_argument, Exec, pure, gets, ◌>>=◌, ◌>>◌}
use libvsf.Container.Order.{nat_less}
use libvsf.Container.Map.{Map, find}
use libvsf.Container.Set.{Set, insert, set_difference}
use libvsf.Utils.StrTools.{Text}
use libvsf.Utils.Numbers.{stoi}
use libvsf.Vm.VmId.{VmId, no_vm, vm_id_less}
use libvsf.Vm.VmBase.Data.{VmBase, VmCall, Found, dirs_of, refresh}

unfoldable pub refresh_once : Bool → Found → Exec VmBase (List VmCall)
refresh_once true found = pure []
refresh_once false found = refresh found

abbrev pub when_ready {ℓ} : {A : Type ℓ} → (VmBase → A) → VmBase → Option A
when_ready f b = if b.has_data then some (f b) else none

unfoldable pub get_vm_ids : Bool → Found → Exec VmBase (Option (Set VmId))
get_vm_ids joinable found = do refresh_once joinable found; gets (when_ready (λ b. b.vm_ids))

unfoldable pub stable_vmthread_id_to_vm_id : Bool → Found → ℕ → Exec VmBase (Option VmId)
stable_vmthread_id_to_vm_id joinable found pid = do
  refresh_once joinable found
  gets (when_ready (λ b. get_or (find pid b.stable_vmthread_id_to_vm_id) no_vm))

unfoldable pub get_data_by_vm_id :
    {A : Type 0} → (VmBase → Map VmId A) → A → Bool → Found → VmId → Exec VmBase (Option A)
get_data_by_vm_id field failed_ret joinable found vm_id = do
  refresh_once joinable found
  gets (when_ready (λ b. get_or (find vm_id (field b)) failed_ret))

abbrev pub get_name : Bool → Found → VmId → Exec VmBase (Option Text)
get_name = get_data_by_vm_id (λ b. b.name) []

abbrev pub get_uuid : Bool → Found → VmId → Exec VmBase (Option Text)
get_uuid = get_data_by_vm_id (λ b. b.uuid) []

abbrev pub get_vsocket_num : Bool → Found → VmId → Exec VmBase (Option ℤ)
get_vsocket_num = get_data_by_vm_id (λ b. b.vsocket_num) minus_one

abbrev pub get_vcore_num : Bool → Found → VmId → Exec VmBase (Option ℤ)
get_vcore_num = get_data_by_vm_id (λ b. b.vcore_num) minus_one

abbrev pub get_vhpthread_num : Bool → Found → VmId → Exec VmBase (Option ℤ)
get_vhpthread_num = get_data_by_vm_id (λ b. b.vhpthread_num) minus_one

abbrev pub get_total_mem_size : Bool → Found → VmId → Exec VmBase (Option ℤ)
get_total_mem_size = get_data_by_vm_id (λ b. b.total_mem_size) minus_one

abbrev pub get_vcpu_ids : Bool → Found → VmId → Exec VmBase (Option (Set ℕ))
get_vcpu_ids = get_data_by_vm_id (λ b. b.vcpu_ids) []

abbrev pub get_stable_vmthread_ids : Bool → Found → VmId → Exec VmBase (Option (Set ℕ))
get_stable_vmthread_ids = get_data_by_vm_id (λ b. b.stable_vmthread_ids) []

-- The names of directories as numbers, in a set.
unfoldable pub read_numbers : List Text → Set ℕ → Result (Set ℕ)
read_numbers [] ids = ok ids
read_numbers (dir ∷ dirs) ids = elim (stoi dir) [
  | none ↦ err invalid_argument
  | some n ↦ read_numbers dirs (insert n ids)
]

-- A machine without a stable thread is down.
abbrev pub volatile_of : Set ℕ → Set ℕ → Set ℕ
volatile_of vmthread_ids [] = []
volatile_of vmthread_ids (t ∷ ts) = set_difference vmthread_ids (t ∷ ts)

abbrev pub read_task_dirs : Result (List Text) → Result (Set ℕ)
read_task_dirs (err e) = err e
read_task_dirs (ok dirs) = read_numbers dirs []

abbrev pub read_threads_of : Result (Set ℕ) → Exec VmBase (Set ℕ)
read_threads_of r b = (r, b)

abbrev pub finish_volatile : Set ℕ → Option (Set ℕ) → Exec VmBase (Option (Set ℕ))
finish_volatile vmthread_ids none = pure none
finish_volatile vmthread_ids (some ids) = pure (some (volatile_of vmthread_ids ids))

-- `task_dir` is the path of the directory of a process's tasks.
unfoldable pub refresh_volatile_vmthread :
    (ℕ → Text) → Bool → Found → VmId → Exec VmBase (Option (Set ℕ))
refresh_volatile_vmthread task_dir joinable found vm_id = do
  vmthread_ids ← read_threads_of (read_task_dirs (dirs_of found.scandir (task_dir vm_id.pid) []))
  stable ← get_stable_vmthread_ids joinable found vm_id
  finish_volatile vmthread_ids stable

abbrev pub num_of : Option (Set ℕ) → Option ℕ
num_of none = none
num_of (some ids) = some (length ids)

abbrev pub get_vcpu_num : Bool → Found → VmId → Exec VmBase (Option ℕ)
get_vcpu_num joinable found vm_id = do ids ← get_vcpu_ids joinable found vm_id; pure (num_of ids)

abbrev pub get_stable_vmthread_num : Bool → Found → VmId → Exec VmBase (Option ℕ)
get_stable_vmthread_num joinable found vm_id = do
  ids ← get_stable_vmthread_ids joinable found vm_id
  pure (num_of ids)

abbrev pub get_volatile_vmthread_ids :
    (ℕ → Text) → Bool → Found → VmId → Exec VmBase (Option (Set ℕ))
get_volatile_vmthread_ids = refresh_volatile_vmthread

abbrev pub get_volatile_vmthread_num : (ℕ → Text) → Bool → Found → VmId → Exec VmBase (Option ℕ)
get_volatile_vmthread_num task_dir joinable found vm_id = do
  ids ← refresh_volatile_vmthread task_dir joinable found vm_id
  pure (num_of ids)
