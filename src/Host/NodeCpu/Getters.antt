-- ===== src/Host/NodeCpu/Getters.antt =====
-- The getters of `NodeCpu`. Each reads the files first, if they have not been read.
use libvsf.Prelude.{ℕ, List, [], ◌∷◌, if◌then◌else◌, length}
use libvsf.Prelude.Int.{minus_one}
use libvsf.Prelude.Exec.{Exec, gets, ◌>>◌}
use libvsf.Container.Order.{Less}
use libvsf.Container.Map.{Map, index, keys}
use libvsf.Container.Set.{Set, member, insert_all}
use libvsf.Utils.StrTools.{Text}
use libvsf.Host.NodeCpu.{
  NodeId, SocketId, HpthreadId, CoreId, int_less, core_less, NodeCpu, Files, refresh,
}

-- The first key whose set has the value, and `d` if there is none.
unfoldable pub key_with {ℓ κ} : {A : Type ℓ} {B : Type κ} ⦃p : Less B⦄ → A → B → Map A (Set B) → A
key_with d v [] = d
key_with d v ((a, s) ∷ m) = if member v s then a else key_with d v m

abbrev pub no_core : CoreId
no_core = record { socket_id = minus_one; core_id = minus_one }

module _ (files : Files) (node_dir : Text) where
  -- `read` after a refresh: the form of each getter.
  unfoldable pub getter : {A : Type 0} → (NodeCpu → A) → Exec NodeCpu A
  getter read = do refresh files node_dir; gets read

  abbrev pub get_keys :
      {A B : Type 0} ⦃o : Less A⦄ → (NodeCpu → Map A (Set B)) → Exec NodeCpu (Set A)
  get_keys data_of = getter (λ s. insert_all (keys (data_of s)) [])

  abbrev pub get_key_num : {A : Type 0} → (NodeCpu → List A) → Exec NodeCpu ℕ
  get_key_num data_of = getter (λ s. length (data_of s))

  abbrev pub get_key_by_value :
      {A B : Type 0} ⦃p : Less B⦄ → A → (NodeCpu → Map A (Set B)) → B → Exec NodeCpu A
  get_key_by_value d data_of value = getter (λ s. key_with d value (data_of s))

  abbrev pub get_value_by_key :
      {A B : Type 0} ⦃o : Less A⦄ → (NodeCpu → Map A (Set B)) → A → Exec NodeCpu (Set B)
  get_value_by_key data_of key = getter (λ s. index key [] (data_of s))

  abbrev pub get_value_num_by_key :
      {A B : Type 0} ⦃o : Less A⦄ → (NodeCpu → Map A (Set B)) → A → Exec NodeCpu ℕ
  get_value_num_by_key data_of key = getter (λ s. length (index key [] (data_of s)))

  abbrev pub get_node_num : Exec NodeCpu ℕ
  get_node_num = get_key_num (λ s. s.node_hpthread)

  abbrev pub get_node_ids : Exec NodeCpu (Set NodeId)
  get_node_ids = get_keys (λ s. s.node_hpthread)

  abbrev pub node_of_socket : SocketId → Exec NodeCpu NodeId
  node_of_socket = get_key_by_value minus_one (λ s. s.node_socket)

  abbrev pub node_of_core : CoreId → Exec NodeCpu NodeId
  node_of_core = get_key_by_value minus_one (λ s. s.node_core)

  abbrev pub node_of_hpthread : HpthreadId → Exec NodeCpu NodeId
  node_of_hpthread = get_key_by_value minus_one (λ s. s.node_hpthread)

  abbrev pub get_socket_num : Exec NodeCpu ℕ
  get_socket_num = get_key_num (λ s. s.socket_hpthread)

  abbrev pub socket_num_of_node : NodeId → Exec NodeCpu ℕ
  socket_num_of_node = get_value_num_by_key (λ s. s.node_socket)

  abbrev pub get_socket_ids : Exec NodeCpu (Set SocketId)
  get_socket_ids = get_keys (λ s. s.socket_hpthread)

  abbrev pub sockets_of_node : NodeId → Exec NodeCpu (Set SocketId)
  sockets_of_node = get_value_by_key (λ s. s.node_socket)

  -- This one reads no file.
  abbrev pub socket_of_core : CoreId → SocketId
  socket_of_core c = c.socket_id

  abbrev pub socket_of_hpthread : HpthreadId → Exec NodeCpu SocketId
  socket_of_hpthread = get_key_by_value minus_one (λ s. s.socket_hpthread)

  abbrev pub get_core_num : Exec NodeCpu ℕ
  get_core_num = get_key_num (λ s. s.core_hpthread)

  abbrev pub core_num_of_node : NodeId → Exec NodeCpu ℕ
  core_num_of_node = get_value_num_by_key (λ s. s.node_core)

  abbrev pub core_num_of_socket : SocketId → Exec NodeCpu ℕ
  core_num_of_socket = get_value_num_by_key (λ s. s.socket_core)

  abbrev pub get_core_ids : Exec NodeCpu (Set CoreId)
  get_core_ids = get_keys (λ s. s.core_hpthread)

  abbrev pub cores_of_node : NodeId → Exec NodeCpu (Set CoreId)
  cores_of_node = get_value_by_key (λ s. s.node_core)

  abbrev pub cores_of_socket : SocketId → Exec NodeCpu (Set CoreId)
  cores_of_socket = get_value_by_key (λ s. s.socket_core)

  abbrev pub core_of_hpthread : HpthreadId → Exec NodeCpu CoreId
  core_of_hpthread = get_key_by_value no_core (λ s. s.core_hpthread)

  abbrev pub get_hpthread_num : Exec NodeCpu ℕ
  get_hpthread_num = get_key_num (λ s. s.hpthread)

  abbrev pub hpthread_num_of_node : NodeId → Exec NodeCpu ℕ
  hpthread_num_of_node = get_value_num_by_key (λ s. s.node_hpthread)

  abbrev pub hpthread_num_of_socket : SocketId → Exec NodeCpu ℕ
  hpthread_num_of_socket = get_value_num_by_key (λ s. s.socket_hpthread)

  abbrev pub hpthread_num_of_core : CoreId → Exec NodeCpu ℕ
  hpthread_num_of_core = get_value_num_by_key (λ s. s.core_hpthread)

  abbrev pub get_hpthread_ids : Exec NodeCpu (Set HpthreadId)
  get_hpthread_ids = getter (λ s. s.hpthread)

  abbrev pub hpthreads_of_node : NodeId → Exec NodeCpu (Set HpthreadId)
  hpthreads_of_node = get_value_by_key (λ s. s.node_hpthread)

  abbrev pub hpthreads_of_socket : SocketId → Exec NodeCpu (Set HpthreadId)
  hpthreads_of_socket = get_value_by_key (λ s. s.socket_hpthread)

  abbrev pub hpthreads_of_core : CoreId → Exec NodeCpu (Set HpthreadId)
  hpthreads_of_core = get_value_by_key (λ s. s.core_hpthread)
