-- ===== src/Host/NodeCpu.antt =====
-- src/sysinfo/host/static/node_cpu.cpp: which NUMA node, socket and core each hardware thread of the
-- host belongs to. An id is an `int`, -1 for none. What the files of the system hold is an argument.
mod Tests
pub mod Getters
pub mod Topology
pub mod Reading
use libvsf.Prelude.{
  ℕ, suc, zero, ◌+◌, Bool, true, false, ◌&&◌, ◌||◌, Option, none, some, List, [], ◌∷◌, ◌==◌,
  if◌then◌else◌, map_option, get_elem?, length, take, drop,
}
use libvsf.Prelude.Int.{ℤ, pos, pos_part, minus_one, ◌+ℤ◌, ◌-ℤ◌, ltb_ℤ, eqb_ℤ}
use libvsf.Prelude.Exec.{
  Result, ok, err, file_open_failed, invalid_argument, out_of_bounds, Exec, pure, gets, or_raise,
  modify, ◌>>=◌, ◌>>◌,
}
use libvsf.Container.Order.{Less}
use libvsf.Container.Map.{Map, put, index}
use libvsf.Container.Set.{Set, insert, includes}
use libvsf.Utils.StrTools.{Text, strip, split, is_empty, eq_text, node, get_dirs}
use libvsf.Utils.Numbers.{stoi_signed}

abbrev pub NodeId : Type 0
NodeId = ℤ

abbrev pub SocketId : Type 0
SocketId = ℤ

abbrev pub HpthreadId : Type 0
HpthreadId = ℤ

pub record CoreId : Type 0 where
  pub socket_id : ℤ
  pub core_id : ℤ

instance abbrev pub int_less : Less ℤ
int_less = record { less = ltb_ℤ }

unfoldable pub core_lt : CoreId → CoreId → Bool
core_lt lc rc =
    if ltb_ℤ lc.socket_id rc.socket_id
    then true
    else if eqb_ℤ lc.socket_id rc.socket_id
    then ltb_ℤ lc.core_id rc.core_id
    else false

instance abbrev pub core_less : Less CoreId
core_less = record { less = core_lt }

pub record NodeCpu : Type 0 where
  pub node_socket : Map NodeId (Set SocketId)
  pub node_core : Map NodeId (Set CoreId)
  pub node_hpthread : Map NodeId (Set HpthreadId)
  pub socket_core : Map SocketId (Set CoreId)
  pub socket_hpthread : Map SocketId (Set HpthreadId)
  pub core_hpthread : Map CoreId (Set HpthreadId)
  pub hpthread : Set HpthreadId
  pub has_data : Bool

-- scandir, the first word of the file `cpulist` in a directory, and the lines of /proc/cpuinfo.
pub record Files : Type 0 where
  pub scandir : Text → (Text → Bool) → Option (List Text)
  pub cpulist : Text → Option Text
  pub cpuinfo : Option (List Text)

unfoldable pub clear : NodeCpu → NodeCpu
clear s = record {
  node_socket = [];
  node_core = [];
  node_hpthread = [];
  socket_core = [];
  socket_hpthread = [];
  core_hpthread = [];
  hpthread = [];
  has_data = false;
}

-- m[a].insert(b)
unfoldable pub insert_at {ℓ κ} :
    {A : Type ℓ} {B : Type κ} ⦃o : Less A⦄ ⦃p : Less B⦄ → A → B → Map A (Set B) → Map A (Set B)
insert_at a b m = put a (insert b (index a [] m)) m

abbrev pub add_to_node : NodeId → HpthreadId → NodeCpu → NodeCpu
add_to_node n h s = record s { node_hpthread = insert_at n h s.node_hpthread }

-- The loop from `cpu_beg` on, with the number of its rounds.
unfoldable pub add_range : NodeId → ℤ → ℕ → NodeCpu → NodeCpu
add_range n cpu_beg zero s = s
add_range n cpu_beg (suc k) s = add_range n (cpu_beg +ℤ pos 1) k (add_to_node n cpu_beg s)

-- The position of the first '-'.
unfoldable pub dash_at : Text → Option ℕ
dash_at [] = none
dash_at (c ∷ cs) = let rest = dash_at cs in if c == 45 then some 0 else map_option suc rest

-- A piece is read before the entry of the node is made.
unfoldable pub add_piece : NodeId → Text → Exec NodeCpu (Unit {0})
add_piece n substri = elim (dash_at substri) [
  | none ↦ do h ← or_raise (stoi_signed substri) invalid_argument; modify (add_to_node n h)
  | some cnt2 ↦ do
    cpu_beg ← or_raise (stoi_signed (take cnt2 substri)) invalid_argument
    cpu_end ← or_raise (stoi_signed (drop (suc cnt2) substri)) invalid_argument
    modify (add_range n cpu_beg (pos_part (cpu_end +ℤ pos 1 -ℤ cpu_beg)))
]

abbrev pub when : Bool → Exec NodeCpu (Unit {0}) → Exec NodeCpu (Unit {0})
when true m = m
when false m = pure tt

-- The loop over the characters, with the rest of them. The second argument of `substr` is a length,
-- and is given the position `cnt`: a piece may go on after its comma.
unfoldable pub add_cpulist : NodeId → Text → Text → ℕ → ℕ → Exec NodeCpu (Unit {0})
add_cpulist n cpulist [] cnt beg_idx = pure tt
add_cpulist n cpulist (c ∷ cs) cnt beg_idx =
    let last = cnt + 1 == length cpulist in
    let cnt' = if last then cnt + 1 else cnt in
    let ends = c == 44 || last in
    when ends (add_piece n (take cnt' (drop beg_idx cpulist)))
    >> add_cpulist n cpulist cs (cnt' + 1) (if ends then cnt' + 1 else beg_idx)

module _ (files : Files) where
  -- One round of the loop over the directories.
  unfoldable pub read_node : Text → Exec NodeCpu (Unit {0})
  read_node dir = do
    list ← or_raise (files.cpulist dir) file_open_failed
    n ← or_raise (stoi_signed (drop 4 dir)) invalid_argument
    add_cpulist n list list 0 0

  unfoldable pub read_nodes : List Text → Exec NodeCpu (Unit {0})
  read_nodes [] = pure tt
  read_nodes (dir ∷ dirs) = read_node dir >> read_nodes dirs

  unfoldable pub node_dirs : Text → Exec NodeCpu (List Text)
  node_dirs node_dir s =
      let (r, dirs) = get_dirs files.scandir node_dir node [] in
      elim r [ ok _ ↦ (ok dirs, s) | err e ↦ (err e, s) ]

  -- `node_dir` is NODE_DIR.
  unfoldable pub refresh_node_hpthread : Text → Exec NodeCpu (Unit {0})
  refresh_node_hpthread node_dir = node_dirs node_dir >>= read_nodes

-- The ids that the lines have told so far.
pub record Seen : Type 0 where
  pub hpthread_id : HpthreadId
  pub socket_id : SocketId
  pub core_id : CoreId

abbrev pub nothing_seen : Seen
nothing_seen = record {
  hpthread_id = minus_one;
  socket_id = minus_one;
  core_id = record { socket_id = minus_one; core_id = minus_one };
}

-- "processor", "physical id" and "core id"
abbrev pub processor : Text
processor = 112 ∷ 114 ∷ 111 ∷ 99 ∷ 101 ∷ 115 ∷ 115 ∷ 111 ∷ 114 ∷ []

abbrev pub physical_id : Text
physical_id = 112 ∷ 104 ∷ 121 ∷ 115 ∷ 105 ∷ 99 ∷ 97 ∷ 108 ∷ 32 ∷ 105 ∷ 100 ∷ []

abbrev pub core_id_word : Text
core_id_word = 99 ∷ 111 ∷ 114 ∷ 101 ∷ 32 ∷ 105 ∷ 100 ∷ []

-- stoi(words[1])
unfoldable pub number_of : List Text → Result ℤ
number_of words = elim (get_elem? words 1) [
  | none ↦ err out_of_bounds
  | some w ↦ elim (stoi_signed w) [ none ↦ err invalid_argument | some i ↦ ok i ]
]

abbrev pub note : (ℤ → Seen) → Result ℤ → Result Seen
note f (ok i) = ok (f i)
note f (err e) = err e

unfoldable pub read_field : List Text → Seen → Result Seen
read_field [] seen = err out_of_bounds
read_field (w ∷ ws) seen =
    if eq_text (strip w) processor
    then note (λ i. record seen { hpthread_id = i }) (number_of (w ∷ ws))
    else if eq_text (strip w) physical_id
    then note (λ i. record seen { socket_id = i }) (number_of (w ∷ ws))
    else if eq_text (strip w) core_id_word
    then note (λ i. record seen { core_id = record { socket_id = seen.socket_id; core_id = i } })
        (number_of (w ∷ ws))
    else ok seen

-- The same field is read once for each word of its line.
unfoldable pub read_line : List Text → List Text → Seen → Result Seen
read_line [] words seen = ok seen
read_line (w ∷ ws) words seen = elim (read_field words seen) [
  | ok seen' ↦ read_line ws words seen'
  | err e ↦ err e
]

abbrev pub add_thread : Seen → NodeCpu → NodeCpu
add_thread seen s = record s {
  socket_hpthread = insert_at seen.socket_id seen.hpthread_id s.socket_hpthread;
  core_hpthread = insert_at seen.core_id seen.hpthread_id s.core_hpthread;
  hpthread = insert seen.hpthread_id s.hpthread;
}

-- One round of the loop over the lines: an empty line ends a thread's block.
unfoldable pub add_line : Text → Seen → Exec NodeCpu Seen
add_line line seen s =
    if is_empty (strip line)
    then (ok seen, add_thread seen s)
    else (read_line (split line 58 []) (split line 58 []) seen, s)

unfoldable pub add_lines : List Text → Seen → Exec NodeCpu (Unit {0})
add_lines [] seen = pure tt
add_lines (line ∷ lines) seen = add_line line seen >>= add_lines lines

unfoldable pub refresh_socket_core_hpthread : Files → Exec NodeCpu (Unit {0})
refresh_socket_core_hpthread files = do
  lines ← or_raise files.cpuinfo file_open_failed
  add_lines lines nothing_seen

module _ {ℓ κ} {A : Type ℓ} {B : Type κ} ⦃o : Less A⦄ ⦃p : Less B⦄ where
  -- The inner loop of `refresh_others`: a part `b` is put under each whole that includes its threads.
  unfoldable pub relate_one :
      B → Set HpthreadId → Map A (Set HpthreadId) → Map A (Set B) → Map A (Set B)
  relate_one b hs [] m = m
  relate_one b hs ((a, gs) ∷ wholes) m =
      relate_one b hs wholes (if includes gs hs then insert_at a b m else m)

  unfoldable pub relate :
      Map B (Set HpthreadId) → Map A (Set HpthreadId) → Map A (Set B) → Map A (Set B)
  relate [] wholes m = m
  relate ((b, hs) ∷ parts) wholes m = relate parts wholes (relate_one b hs wholes m)

unfoldable pub refresh_others : NodeCpu → NodeCpu
refresh_others s = record s {
  node_socket = relate s.socket_hpthread s.node_hpthread s.node_socket;
  node_core = relate s.core_hpthread s.node_hpthread s.node_core;
  socket_core = relate s.core_hpthread s.socket_hpthread s.socket_core;
}

abbrev pub mark : NodeCpu → NodeCpu
mark s = record s { has_data = true }

unfoldable pub read_all : Files → Text → Exec NodeCpu (Unit {0})
read_all files node_dir = do
  refresh_node_hpthread files node_dir
  refresh_socket_core_hpthread files
  modify refresh_others
  modify mark

unfoldable pub refresh : Files → Text → Exec NodeCpu (Unit {0})
refresh files node_dir s = if s.has_data then (ok tt, s) else read_all files node_dir s
