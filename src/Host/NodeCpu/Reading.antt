-- ===== src/Host/NodeCpu/Reading.antt =====
-- What the reading of the files leaves in `NodeCpu`.
use libvsf.Prelude.{
  ℕ, suc, zero, ◌+◌, ◌||◌, ◌==◌, length, take, drop, ◌≡◌, refl, sym, ap, ◌∙◌, Bool, true, false,
  Option, none, some, List, [], ◌∷◌, arith, Bool-cases, Option-cases, inl, inr, if◌then◌else◌,
}
use libvsf.Prelude.Int.{ℤ, pos, pos_part, ◌+ℤ◌, ◌-ℤ◌}
use libvsf.Prelude.Exec.{
  Error, Result, ok, err, file_open_failed, invalid_argument, Exec, or_raise, modify, ◌>>=◌, ◌>>◌,
  >>=-eq-ok,
}
use libvsf.Container.Order.{Less}
use libvsf.Container.Map.{Map, find, put, index}
use libvsf.Container.Set.{Set, member, insert, IsSorted}
use libvsf.Container.Set.Laws.{insert-IsSorted}
use libvsf.Utils.StrTools.{Text, strip, is_empty, node, get_dirs}
use libvsf.Utils.Numbers.{stoi_signed}
use libvsf.Host.NodeCpu.{
  nothing_seen, NodeId, SocketId, HpthreadId, CoreId, int_less, core_less, NodeCpu, Files, clear,
  insert_at, add_to_node, add_range, dash_at, add_piece, when, add_cpulist, read_node, read_nodes,
  node_dirs, refresh_node_hpthread, Seen, add_line, add_lines, refresh_socket_core_hpthread,
  refresh_others, mark, read_all, refresh,
}
use libvsf.Host.NodeCpu.Topology.{AllSorted, part_of, int-IsOrder, refresh_others_lem}

-- The state while the files are read: the threads are in order, and nothing is related yet.
pub record Reading (s : NodeCpu) : Type 0 where
  pub nodes : AllSorted s.node_hpthread
  pub sockets : AllSorted s.socket_hpthread
  pub cores : AllSorted s.core_hpthread
  pub no_node_socket : s.node_socket ≡ []
  pub no_node_core : s.node_core ≡ []
  pub no_socket_core : s.socket_core ≡ []

module _ {ℓ} {A : Type ℓ} ⦃o : Less A⦄ where
  AllSorted-put :
      (a : A) (h : Set HpthreadId) (m : Map A (Set HpthreadId))
      → IsSorted h
      → AllSorted m
      → AllSorted (put a h m)
  unfolding put
  AllSorted-put a h [] q r = (q, tt)
  AllSorted-put a h ((j, w) ∷ m) q r = ground (arith, q, r, AllSorted-put a h m q r.1)

  index-IsSorted : (a : A) (m : Map A (Set HpthreadId)) → AllSorted m → IsSorted (index a [] m)
  unfolding find
  index-IsSorted a [] r = tt
  index-IsSorted a ((j, w) ∷ m) r = ground (arith, r, index-IsSorted a m r.1)

  AllSorted-insert_at :
      (a : A) (h : HpthreadId) (m : Map A (Set HpthreadId))
      → AllSorted m
      → AllSorted (insert_at a h m)
  unfolding insert_at
  AllSorted-insert_at a h m r =
      AllSorted-put a (insert h (index a [] m)) m
        (insert-IsSorted int-IsOrder h (index a [] m) (index-IsSorted a m r)) r

-- A call that keeps what is read so, whether it throws or not.
abbrev Keeps : {A : Type 0} → Exec NodeCpu A → Type 0
Keeps m = (s : NodeCpu) → Reading s → Reading (m s).1

bind-Keeps :
    {A B : Type 0} (m : Exec NodeCpu A) (f : A → Exec NodeCpu B)
    → Keeps m
    → ((a : A) → Keeps (f a))
    → Keeps (m >>= f)
bind-Keeps {A} {B} m f h k s q = go (m s).0 (m s).1 (h s q)
  where
    go :
        (r : Result A) (s' : NodeCpu)
        → Reading s'
        → Reading (elim r as (λ _. Result B × NodeCpu) [ ok a ↦ f a s' | err e ↦ (err e, s') ]).1
    go (ok a) s' q = k a s' q
    go (err e) s' q = q

or_raise-Keeps : {A : Type 0} (o : Option A) (e : Error) → Keeps (or_raise o e)
or_raise-Keeps none e s q = q
or_raise-Keeps (some a) e s q = q

add_to_node-Reading :
    (n : NodeId) (h : HpthreadId) (s : NodeCpu) → Reading s → Reading (add_to_node n h s)
add_to_node-Reading n h s q = record {
  nodes = AllSorted-insert_at n h s.node_hpthread q.nodes;
  sockets = q.sockets;
  cores = q.cores;
  no_node_socket = q.no_node_socket;
  no_node_core = q.no_node_core;
  no_socket_core = q.no_socket_core;
}

add_range-Reading :
    (n : NodeId) (beg : ℤ) (k : ℕ) (s : NodeCpu) → Reading s → Reading (add_range n beg k s)
unfolding add_range
add_range-Reading n beg zero s q = q
add_range-Reading n beg (suc k) s q =
    add_range-Reading n (beg +ℤ pos 1) k (add_to_node n beg s) (add_to_node-Reading n beg s q)

add_piece-Keeps : (n : NodeId) (t : Text) → Keeps (add_piece n t)
unfolding add_piece
add_piece-Keeps n t = elim (Option-cases (dash_at t)) [
  | inl e ↦
      rw (e, add_piece)
        (bind-Keeps (read t) (λ h. modify (add_to_node n h)) (or_raise-Keeps _ _)
          (add_to_node-Reading n))
  | inr (i, e) ↦
      rw (e, add_piece)
        (bind-Keeps (read (take i t)) (λ b. read (drop (suc i) t) >>= range b) (or_raise-Keeps _ _)
          (λ b.
            bind-Keeps (read (drop (suc i) t)) (range b) (or_raise-Keeps _ _)
              (λ c. add_range-Reading n b _)))
]
  where
    read : Text → Exec NodeCpu ℤ
    read u = or_raise (stoi_signed u) invalid_argument

    range : ℤ → ℤ → Exec NodeCpu (Unit {0})
    range b c = modify (add_range n b (pos_part (c +ℤ pos 1 -ℤ b)))

when-Keeps : (b : Bool) (m : Exec NodeCpu (Unit {0})) → Keeps m → Keeps (when b m)
when-Keeps true m h s q = h s q
when-Keeps false m h s q = q

add_cpulist-Keeps :
    (n : NodeId) (list cs : Text) (cnt beg : ℕ) → Keeps (add_cpulist n list cs cnt beg)
unfolding add_cpulist
add_cpulist-Keeps n list [] cnt beg s q = q
add_cpulist-Keeps n list (c ∷ cs) cnt beg s q =
    let last = cnt + 1 == length list in
    let cnt' = if last then cnt + 1 else cnt in
    let ends = c == 44 || last in
    let piece = add_piece n (take cnt' (drop beg list)) in
    bind-Keeps (when ends piece)
      (λ _. add_cpulist n list cs (cnt' + 1) (if ends then cnt' + 1 else beg))
      (when-Keeps ends piece (add_piece-Keeps n (take cnt' (drop beg list))))
      (λ _. add_cpulist-Keeps n list cs (cnt' + 1) (if ends then cnt' + 1 else beg)) s q

module _ (files : Files) where
  read_node-Keeps : (dir : Text) → Keeps (read_node files dir)
  unfolding read_node
  read_node-Keeps dir =
      bind-Keeps (or_raise (files.cpulist dir) file_open_failed)
        (λ l. or_raise (stoi_signed (drop 4 dir)) invalid_argument >>= λ n. add_cpulist n l l 0 0)
        (or_raise-Keeps (files.cpulist dir) file_open_failed)
        (λ l.
          bind-Keeps (or_raise (stoi_signed (drop 4 dir)) invalid_argument)
            (λ n. add_cpulist n l l 0 0)
            (or_raise-Keeps (stoi_signed (drop 4 dir)) invalid_argument)
            (λ n. add_cpulist-Keeps n l l 0 0))

  read_nodes-Keeps : (dirs : List Text) → Keeps (read_nodes files dirs)
  unfolding read_nodes
  read_nodes-Keeps [] s q = q
  read_nodes-Keeps (dir ∷ dirs) s q =
      bind-Keeps (read_node files dir) (λ _. read_nodes files dirs) (read_node-Keeps dir)
        (λ _. read_nodes-Keeps dirs) s q

  node_dirs-Keeps : (node_dir : Text) → Keeps (node_dirs files node_dir)
  unfolding node_dirs
  node_dirs-Keeps node_dir s q =
      go (get_dirs files.scandir node_dir node []).0 (get_dirs files.scandir node_dir node []).1
    where
      go :
          (r : Result (Unit {0})) (dirs : List Text)
          → Reading
              (elim r as (λ _. Result (List Text) × NodeCpu) [
                | ok _ ↦ (ok dirs, s)
                | err e ↦ (err e, s)
              ]).1
      go (ok a) dirs = q
      go (err e) dirs = q

  refresh_node_hpthread-Keeps : (node_dir : Text) → Keeps (refresh_node_hpthread files node_dir)
  unfolding refresh_node_hpthread
  refresh_node_hpthread-Keeps node_dir =
      bind-Keeps (node_dirs files node_dir) (read_nodes files) (node_dirs-Keeps node_dir)
        read_nodes-Keeps

add_line-Keeps : (line : Text) (seen : Seen) → Keeps (add_line line seen)
unfolding add_line
add_line-Keeps line seen s q = elim (Bool-cases (is_empty (strip line))) [
  | inl e ↦ rw e (record {
    nodes = q.nodes;
    sockets = AllSorted-insert_at seen.socket_id seen.hpthread_id s.socket_hpthread q.sockets;
    cores = AllSorted-insert_at seen.core_id seen.hpthread_id s.core_hpthread q.cores;
    no_node_socket = q.no_node_socket;
    no_node_core = q.no_node_core;
    no_socket_core = q.no_socket_core;
  })
  | inr e ↦ rw e q
]

add_lines-Keeps : (lines : List Text) (seen : Seen) → Keeps (add_lines lines seen)
unfolding add_lines
add_lines-Keeps [] seen s q = q
add_lines-Keeps (l ∷ ls) seen s q =
    bind-Keeps (add_line l seen) (add_lines ls) (add_line-Keeps l seen) (add_lines-Keeps ls) s q

cpuinfo-Keeps : (files : Files) → Keeps (refresh_socket_core_hpthread files)
unfolding refresh_socket_core_hpthread
cpuinfo-Keeps files =
    bind-Keeps (or_raise files.cpuinfo file_open_failed) (λ ls. add_lines ls nothing_seen)
      (or_raise-Keeps files.cpuinfo file_open_failed) (λ ls. add_lines-Keeps ls nothing_seen)

clear-Reading : (s : NodeCpu) → Reading (clear s)
unfolding clear
clear-Reading s = record {
  nodes = tt;
  sockets = tt;
  cores = tt;
  no_node_socket = refl;
  no_node_core = refl;
  no_socket_core = refl;
}

-- The relations are those that the threads of the nodes, sockets and cores give.
abbrev pub Related : NodeCpu → NodeId → SocketId → CoreId → Type 0
Related s n i c =
    (member i (index n [] s.node_socket) ≡ part_of i n s.socket_hpthread s.node_hpthread)
    × (member c (index n [] s.node_core) ≡ part_of c n s.core_hpthread s.node_hpthread)
    × (member c (index i [] s.socket_core) ≡ part_of c i s.core_hpthread s.socket_hpthread)

or_nothing {ℓ κ} :
    {A : Type ℓ} {B : Type κ} ⦃o : Less A⦄ ⦃p : Less B⦄ (x : Bool) (a : A) (b : B)
    (m : Map A (Set B))
    → m ≡ []
    → (x || member b (index a [] m)) ≡ x
unfolding find member
or_nothing x a b m e = rw e (ground arith)

refresh_others-Related :
    (s : NodeCpu) (n : NodeId) (i : SocketId) (c : CoreId)
    → Reading s
    → Related (refresh_others s) n i c
unfolding refresh_others
refresh_others-Related s n i c q =
    let (a, b, d) = refresh_others_lem s n i c q.nodes q.sockets q.cores in
    (
      a ∙ or_nothing _ n i s.node_socket q.no_node_socket,
      b ∙ or_nothing _ n c s.node_core q.no_node_core,
      d ∙ or_nothing _ i c s.socket_core q.no_socket_core,
    )

pub refresh-clear :
    (files : Files) (node_dir : Text) (s : NodeCpu) (n : NodeId) (i : SocketId) (c : CoreId)
    → (refresh files node_dir (clear s)).0 ≡ ok tt
    → let s' = (refresh files node_dir (clear s)).1 in (s'.has_data ≡ true) × Related s' n i c
unfolding refresh clear read_all
refresh-clear files node_dir s n i c h =
    let m1 = refresh_node_hpthread files node_dir in
    let m2 = refresh_socket_core_hpthread files in
    let rest : Exec NodeCpu (Unit {0}) = modify refresh_others >> modify mark in
    let whole = λ (k : NodeCpu). (m1 >> (m2 >> rest)) k in
    let (a, s1, e1, f1) =
      >>=-eq-ok m1 (λ _. m2 >> rest) (clear s) (λ j. (h j, (whole (clear s)).1)) in
    let (b, s2, e2, f2) = >>=-eq-ok m2 (λ _. rest) s1 f1 in
    let q1 : Reading s1 =
      rw (sym (ap (λ p. p.1) e1))
        (refresh_node_hpthread-Keeps files node_dir (clear s) (clear-Reading s)) in
    let q2 : Reading s2 = rw (sym (ap (λ p. p.1) e2)) (cpuinfo-Keeps files s1 q1) in
    let done : mark (refresh_others s2) ≡ (whole (clear s)).1 = ap (λ p. p.1) f2 in
    rw (sym done) (refl, refresh_others-Related s2 n i c q2)

-- Once the data has been read it stays, whatever the files hold later, until it is cleared.
pub refresh-refresh :
    (files files' : Files) (node_dir : Text) (s : NodeCpu)
    → (refresh files node_dir (clear s)).0 ≡ ok tt
    → let s' = (refresh files node_dir (clear s)).1 in refresh files' node_dir s' ≡ (ok tt, s')
unfolding refresh
refresh-refresh files files' node_dir s h =
    let no : ℤ = pos 0 in
    rw (refresh-clear files node_dir s no no (record { socket_id = no; core_id = no }) h).0 refl
