-- ===== src/Vm/VmBase/Data.antt =====
-- The state of `VmBase`, its setters and its refresh.
use libvsf.Prelude.{
  ℕ, ◌-◌, Bool, true, false, Option, none, some, List, [], ◌∷◌, if◌then◌else◌, get_or,
}
use libvsf.Prelude.Int.{ℤ, pos, minus_one}
use libvsf.Prelude.Exec.{
  Result, ok, err, file_open_failed, invalid_argument, Exec, pure, gets, modify, or_raise, ◌>>=◌,
  ◌>>◌,
}
use libvsf.Container.Order.{nat_less}
use libvsf.Container.Map.{Map, put, index}
use libvsf.Container.Set.{Set, insert}
use libvsf.Utils.StrTools.{Text, eq_text, get_dirs, vcpu}
use libvsf.Utils.StrTools as StrTools
use libvsf.Utils.Numbers.{stoi}
use libvsf.Vm.VmId.{VmId, vm_id_less}
use libvsf.Vm.VmBase.Line.{
  PsLine, elapsed, with_last_again, value_after, name_key, uuid_key, smp_key, m_key, sockets_word,
  cores_word, threads_word, comma, equals,
}

abbrev pub default_interval_ms : ℕ
default_interval_ms = 5000

-- "qemu-system-x86_64"
abbrev pub default_vm_cmd : Text
default_vm_cmd =
    113 ∷ 101 ∷ 109 ∷ 117 ∷ 45 ∷ 115 ∷ 121 ∷ 115 ∷ 116 ∷ 101 ∷ 109 ∷ 45 ∷ 120 ∷ 56 ∷ 54 ∷ 95 ∷ 54
    ∷ 52 ∷ []

pub record VmBase : Type 0 where
  pub vm_ids : Set VmId
  pub stable_vmthread_id_to_vm_id : Map ℕ VmId
  pub name : Map VmId Text
  pub uuid : Map VmId Text
  pub vsocket_num : Map VmId ℤ
  pub vcore_num : Map VmId ℤ
  pub vhpthread_num : Map VmId ℤ
  pub total_mem_size : Map VmId ℤ
  pub vcpu_ids : Map VmId (Set ℕ)
  pub stable_vmthread_ids : Map VmId (Set ℕ)
  pub has_data : Bool
  pub vm_cmd : Text
  pub interval_ms : ℕ
  pub callback_func : Option ℕ

unfoldable pub init : VmBase
init = record {
  vm_ids = [];
  stable_vmthread_id_to_vm_id = [];
  name = [];
  uuid = [];
  vsocket_num = [];
  vcore_num = [];
  vhpthread_num = [];
  total_mem_size = [];
  vcpu_ids = [];
  stable_vmthread_ids = [];
  has_data = false;
  vm_cmd = default_vm_cmd;
  interval_ms = default_interval_ms;
  callback_func = none;
}

-- What `refresh_most` clears, and what `refresh_vcpu_stable_vmthread` clears.
abbrev pub clear_most : VmBase → VmBase
clear_most b = record b {
  vm_ids = [];
  stable_vmthread_id_to_vm_id = [];
  name = [];
  uuid = [];
  vsocket_num = [];
  vcore_num = [];
  vhpthread_num = [];
  total_mem_size = [];
}

abbrev pub clear_threads : VmBase → VmBase
clear_threads b = record b { vcpu_ids = []; stable_vmthread_ids = [] }

unfoldable pub clear : VmBase → VmBase
clear b = record (clear_threads (clear_most b)) { has_data = false }

unfoldable pub set_vm_cmd : Text → VmBase → VmBase
set_vm_cmd cmd b = record (clear_threads (clear_most b)) { has_data = false; vm_cmd = cmd }

unfoldable pub set_interval : ℕ → VmBase → VmBase
set_interval interval b = record b { interval_ms = interval }

unfoldable pub set_callback : Option ℕ → VmBase → VmBase
set_callback f b = record b { callback_func = f }

unfoldable pub clear_param : VmBase → VmBase
clear_param b = record b {
  interval_ms = default_interval_ms;
  vm_cmd = default_vm_cmd;
  callback_func = none;
}

abbrev pub lift_result {ℓ} : {S A : Type ℓ} → Result A → Exec S A
lift_result r s = (r, s)

abbrev with_number : Text → (ℤ → VmBase → VmBase) → Exec VmBase (Unit {0})
with_number value store = do n ← or_raise (stoi value) invalid_argument; modify (store (pos n))

-- One part `word=number` of -smp; a part that is cut into other than two is left out.
unfoldable pub read_smp_part : VmId → List Text → Exec VmBase (Unit {0})
read_smp_part vm_id (word ∷ value ∷ []) =
    if eq_text word sockets_word
    then with_number value (λ n b. record b { vsocket_num = put vm_id n b.vsocket_num })
    else if eq_text word cores_word
    then with_number value (λ n b. record b { vcore_num = put vm_id n b.vcore_num })
    else if eq_text word threads_word
    then with_number value (λ n b. record b { vhpthread_num = put vm_id n b.vhpthread_num })
    else pure tt
read_smp_part vm_id _ = pure tt

unfoldable pub read_smp_parts : VmId → List Text → Exec VmBase (Unit {0})
read_smp_parts vm_id [] = pure tt
read_smp_parts vm_id (op ∷ ops) =
    read_smp_part vm_id (StrTools.split op equals []) >> read_smp_parts vm_id ops

unfoldable pub read_smp : VmId → Option Text → Exec VmBase (Unit {0})
read_smp vm_id none = pure tt
read_smp vm_id (some text) = read_smp_parts vm_id (StrTools.split text comma [])

abbrev pub size_of : Option Text → Result ℤ
size_of none = ok minus_one
size_of (some text) = elim (stoi text) [ none ↦ err invalid_argument | some n ↦ ok (pos n) ]

-- What is written down of one machine.
abbrev pub add_names : VmId → Option Text → Option Text → VmBase → VmBase
add_names vm_id name uuid b = record b {
  name = put vm_id (get_or name []) b.name;
  uuid = put vm_id (get_or uuid []) b.uuid;
}

-- One round of the loop over the lines of `ps` at the time `now`.
unfoldable pub read_ps_line : ℕ → Text → PsLine → Exec VmBase (Unit {0})
read_ps_line now tmp_str line = do
  args ← pure (with_last_again tmp_str line.args)
  pid ← or_raise (stoi line.pid) invalid_argument
  vm_id ← pure (record { start_timestamp = now - elapsed line.start_timestamp; pid = pid })
  modify (λ b. record b { vm_ids = insert vm_id b.vm_ids })
  name ← lift_result (value_after name_key args)
  uuid ← lift_result (value_after uuid_key args)
  modify (add_names vm_id name uuid)
  smp_text ← lift_result (value_after smp_key args)
  read_smp vm_id smp_text
  size_text ← lift_result (value_after m_key args)
  size ← lift_result (size_of size_text)
  modify (λ b. record b { total_mem_size = put vm_id size b.total_mem_size })

-- The word that the next line starts with in the variable for a word.
abbrev pub last_word : Text → List Text → Text
last_word tmp_str [] = tmp_str
last_word tmp_str (a ∷ args) = last_word a args

unfoldable pub read_ps_lines : ℕ → Text → List PsLine → Exec VmBase (Unit {0})
read_ps_lines now tmp_str [] = pure tt
read_ps_lines now tmp_str (l ∷ ls) =
    read_ps_line now tmp_str l >> read_ps_lines now (last_word tmp_str l.args) ls

-- What a refresh finds: the time, the lines of `ps` for a command, the directories, and the number in
-- the file `tasks` of a directory, for a machine's name and the directory's.
pub record Found : Type 1 where
  pub now : ℕ
  pub ps : Text → List PsLine
  pub vcpu_dir : Text → Text
  pub scandir : Text → (Text → Bool) → Option (List Text)
  pub tasks : Text → Text → Option ℕ

unfoldable pub refresh_most : Found → Exec VmBase (Unit {0})
refresh_most found = do
  modify clear_most
  lines ← gets (λ b. found.ps b.vm_cmd)
  read_ps_lines found.now [] lines

-- The ids in the files of the directories.
unfoldable pub read_ids : (Text → Option ℕ) → List Text → Set ℕ → Result (Set ℕ)
read_ids tasks [] ids = ok ids
read_ids tasks (dir ∷ dirs) ids = elim (tasks dir) [
  | none ↦ err file_open_failed
  | some pid ↦ read_ids tasks dirs (insert pid ids)
]

abbrev pub put_each : List ℕ → VmId → Map ℕ VmId → Map ℕ VmId
put_each [] vm_id m = m
put_each (tid ∷ tids) vm_id m = put_each tids vm_id (put tid vm_id m)

abbrev pub add_threads : VmId → Set ℕ → VmBase → VmBase
add_threads vm_id ids b = record b {
  vcpu_ids = put vm_id ids b.vcpu_ids;
  stable_vmthread_ids = put vm_id (insert vm_id.pid ids) b.stable_vmthread_ids;
  stable_vmthread_id_to_vm_id = put_each (insert vm_id.pid ids) vm_id b.stable_vmthread_id_to_vm_id;
}

-- The directories that `get_dirs` finds, in a new vector.
abbrev pub dirs_of : (Text → (Text → Bool) → Option (List Text)) → Text → Text → Result (List Text)
dirs_of scandir dir dir_prefix =
    let (r, dirs) = get_dirs scandir dir dir_prefix [] in elim r [ ok u ↦ ok dirs | err e ↦ err e ]

unfoldable pub read_threads : Found → VmId → Exec VmBase (Unit {0})
read_threads found vm_id = do
  name ← gets (λ b. index vm_id [] b.name)
  dirs ← lift_result (dirs_of found.scandir (found.vcpu_dir name) vcpu)
  ids ← lift_result (read_ids (found.tasks name) dirs [])
  modify (add_threads vm_id ids)

unfoldable pub read_all_threads : Found → List VmId → Exec VmBase (Unit {0})
read_all_threads found [] = pure tt
read_all_threads found (vm_id ∷ vm_ids) = read_threads found vm_id >> read_all_threads found vm_ids

unfoldable pub refresh_vcpu_stable_vmthread : Found → Exec VmBase (Unit {0})
refresh_vcpu_stable_vmthread found = do
  modify clear_threads
  vm_ids ← gets (λ b. b.vm_ids)
  read_all_threads found vm_ids

-- A call of the user's function with the data of a machine.
pub record VmCall : Type 0 where
  pub callback : ℕ
  pub vm_id : VmId
  pub name : Text
  pub uuid : Text
  pub vsocket_num : ℤ
  pub vcore_num : ℤ
  pub vhpthread_num : ℤ
  pub total_mem_size : ℤ
  pub vcpu_ids : Set ℕ
  pub stable_vmthread_ids : Set ℕ

-- The arguments of one call; operator[] gives a missing number as 0, and adds it to the map.
abbrev pub call_of : ℕ → VmId → VmBase → VmCall
call_of f vm_id b = record {
  callback = f;
  vm_id = vm_id;
  name = index vm_id [] b.name;
  uuid = index vm_id [] b.uuid;
  vsocket_num = index vm_id (pos 0) b.vsocket_num;
  vcore_num = index vm_id (pos 0) b.vcore_num;
  vhpthread_num = index vm_id (pos 0) b.vhpthread_num;
  total_mem_size = index vm_id (pos 0) b.total_mem_size;
  vcpu_ids = index vm_id [] b.vcpu_ids;
  stable_vmthread_ids = index vm_id [] b.stable_vmthread_ids;
}

abbrev pub touch : VmId → VmBase → VmBase
touch vm_id b = record b {
  name = put vm_id (index vm_id [] b.name) b.name;
  uuid = put vm_id (index vm_id [] b.uuid) b.uuid;
  vsocket_num = put vm_id (index vm_id (pos 0) b.vsocket_num) b.vsocket_num;
  vcore_num = put vm_id (index vm_id (pos 0) b.vcore_num) b.vcore_num;
  vhpthread_num = put vm_id (index vm_id (pos 0) b.vhpthread_num) b.vhpthread_num;
  total_mem_size = put vm_id (index vm_id (pos 0) b.total_mem_size) b.total_mem_size;
  vcpu_ids = put vm_id (index vm_id [] b.vcpu_ids) b.vcpu_ids;
  stable_vmthread_ids = put vm_id (index vm_id [] b.stable_vmthread_ids) b.stable_vmthread_ids;
}

unfoldable pub call_each : Option ℕ → List VmId → VmBase → List VmCall × VmBase
call_each none vm_ids b = ([], b)
call_each (some f) [] b = ([], b)
call_each (some f) (vm_id ∷ vm_ids) b =
    let (calls, b') = call_each (some f) vm_ids (touch vm_id b) in (call_of f vm_id b ∷ calls, b')

abbrev pub call_back : Exec VmBase (List VmCall)
call_back b = let (calls, b') = call_each b.callback_func b.vm_ids b in (ok calls, b')

unfoldable pub refresh : Found → Exec VmBase (List VmCall)
refresh found = do
  refresh_most found
  refresh_vcpu_stable_vmthread found
  calls ← call_back
  modify (λ b. record b { has_data = true })
  pure calls
