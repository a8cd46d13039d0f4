-- ===== src/Host/Memory/Sums.antt =====
-- The memory of the host is the sum of its nodes' memory.
use mathlib.Core.List.{append_assoc, append-nil}
use libvsf.Prelude.{
  ==_iff, ℕ, zero, suc, ◌+◌, ◌≤◌, ◌≡◌, refl, sym, ap, ◌∙◌, Bool, false, ◌&&◌, not, none, some, List,
  [], ◌∷◌, ◌++◌, arith, leb, ltb, ◌==◌, if◌then◌else◌, Bool-cases, inl, inr,
}
use libvsf.Prelude.Int.{ℤ, pos, minus_one, ◌+ℤ◌, ◌-ℤ◌, leb_ℤ, eqb_ℤ, int_laws}
use libvsf.Prelude.Exec.{ok, err, invalid_node}
use libvsf.Container.Order.{nat_less, nat-IsOrder, same_iff}
use libvsf.Container.Map.{find, find-emplace}
use libvsf.Host.Memory.{
  Numa, PhyNode, TotalMemSize, push_node, push_nodes, update, updated, get_total_mem_size, size_of,
  get_total_mem_size_of, HsUsedMemSize, add_node, add_nodes, cleared, reflesh, refleshed,
  get_used_mem_size, used_of, get_used_mem_size_of,
}

-- The nodes that libnuma knows, and the used memory of the nodes from `i` on.
abbrev pub known : Numa → ℕ → Bool
known numa i = not (eqb_ℤ (numa.node_size i).mem_total minus_one)

abbrev pub used : Numa → ℕ → ℤ
used numa i = (numa.node_size i).mem_total -ℤ (numa.node_size i).mem_free

abbrev pub sum_used : Numa → ℕ → ℕ → ℤ
sum_used numa zero i = pos 0
sum_used numa (suc k) i = (if known numa i then used numa i else pos 0) +ℤ sum_used numa k (i + 1)

module _ (numa : Numa) where
  add_node-sum :
      (i : ℕ) (s : HsUsedMemSize)
      → let s' = add_node numa i s in
        s'.total_mem -ℤ s'.total_free
        ≡ (s.total_mem -ℤ s.total_free) +ℤ (if known numa i then used numa i else pos 0)
  unfolding add_node
  add_node-sum i s = elim (Bool-cases (eqb_ℤ (numa.node_size i).mem_total minus_one)) [
    | inl e ↦ rw e (omega int_laws)
    | inr e ↦ rw e (omega int_laws)
  ]

  add_nodes-sum :
      (k i : ℕ) (s : HsUsedMemSize)
      → let s' = add_nodes numa k i s in
        s'.total_mem -ℤ s'.total_free ≡ (s.total_mem -ℤ s.total_free) +ℤ sum_used numa k i
  unfolding add_nodes
  add_nodes-sum zero i s = omega int_laws
  add_nodes-sum (suc k) i s =
      let first = add_node-sum i s in
      let rest = add_nodes-sum k (i + 1) (add_node numa i s) in rest ∙ rw first (omega int_laws)

  find-add_node :
      (i j : ℕ) (s : HsUsedMemSize)
      → find i s.mem_infos ≡ none
      → find j (add_node numa i s).mem_infos
        ≡ (if j == i && known numa j then some (numa.node_size j) else find j s.mem_infos)
  unfolding add_node
  find-add_node i j s h = ground (
    arith,
    find-emplace nat-IsOrder i j (numa.node_size i) s.mem_infos,
    same_iff nat-IsOrder i j,
    ap numa.node_size {x = i} {y = j},
  )

  find-add_nodes :
      (k i j : ℕ) (s : HsUsedMemSize)
      → ((n : ℕ) → i ≤ n → find n s.mem_infos ≡ none)
      → find j (add_nodes numa k i s).mem_infos ≡ (
          if leb i j && (ltb j (i + k) && known numa j)
          then some (numa.node_size j)
          else find j s.mem_infos)
  unfolding add_nodes
  find-add_nodes zero i j s h = ground arith
  find-add_nodes (suc k) i j s h =
      find-add_nodes k (i + 1) j (add_node numa i s)
        (λ n le. find-add_node i n s (h i (omega arith)) ∙ ground (arith, h n (omega arith)))
      ∙ ground (arith, find-add_node i j s (h i (omega arith)))

-- After a refresh the used memory of the host is the sum over the nodes that libnuma knows, the used
-- memory of one of these is its total without what is free, and any other node is an error.
pub get_used_mem_size_lem :
    (numa : Numa) (s : HsUsedMemSize) (j : ℕ)
    → s.thread_run ≡ false
    → ((get_used_mem_size numa s).0 ≡ sum_used numa (suc numa.max_node) 0)
      × ((get_used_mem_size_of numa j s).0
          ≡ (if leb j numa.max_node && known numa j then ok (used numa j) else err invalid_node))
unfolding get_used_mem_size get_used_mem_size_of reflesh find
get_used_mem_size_lem numa s j idle =
    let fresh : refleshed numa s ≡ reflesh numa s = rw idle in
    let sums = add_nodes-sum numa (suc numa.max_node) 0 (cleared s) in
    let infos =
      find-add_nodes numa (suc numa.max_node) 0 j (cleared s) (λ n le. unfold find in refl) in
    (
      ap (λ (u : HsUsedMemSize). u.total_mem -ℤ u.total_free) fresh ∙ sums ∙ omega int_laws,
      ap (λ (u : HsUsedMemSize). used_of (find j u.mem_infos)) fresh
          ∙ ap used_of infos
          ∙ ground arith,
    )

-- The nodes from `i` on that have a size, and the sum of their sizes.
abbrev pub sized : Numa → ℕ → Bool
sized numa i = leb_ℤ (pos 0) (numa.node_size i).mem_total

abbrev pub sum_total : Numa → ℕ → ℕ → ℤ
sum_total numa zero i = pos 0
sum_total numa (suc k) i =
    (if sized numa i then (numa.node_size i).mem_total else pos 0) +ℤ sum_total numa k (i + 1)

abbrev entry : Numa → ℕ → PhyNode
entry numa i = record { node_id = i; mem_size = (numa.node_size i).mem_total }

abbrev listing : Numa → ℕ → ℕ → List PhyNode
listing numa zero i = []
listing numa (suc k) i =
    let rest = listing numa k (i + 1) in if sized numa i then entry numa i ∷ rest else rest

module _ (numa : Numa) where
  push_node-split :
      (i : ℕ) (s : TotalMemSize) (rest : List PhyNode) (more : ℤ)
      → ((push_node numa i s).node_info ++ rest
          ≡ s.node_info ++ (if sized numa i then entry numa i ∷ rest else rest))
        × ((push_node numa i s).total_mem +ℤ more
            ≡ s.total_mem
              +ℤ ((if sized numa i then (numa.node_size i).mem_total else pos 0) +ℤ more))
  unfolding push_node
  push_node-split i s rest more = elim (Bool-cases (sized numa i)) [
    | inl e ↦ rw e (append_assoc s.node_info _ rest, omega int_laws)
    | inr e ↦ rw e (refl, omega int_laws)
  ]

  push_nodes_lem :
      (k i : ℕ) (s : TotalMemSize)
      → let s' = push_nodes numa k i s in
        (s'.node_info ≡ s.node_info ++ listing numa k i)
        × (s'.total_mem ≡ s.total_mem +ℤ sum_total numa k i)
  unfolding push_nodes
  push_nodes_lem zero i s = (sym (append-nil s.node_info), omega int_laws)
  push_nodes_lem (suc k) i s =
      let (infos, total) = push_nodes_lem k (i + 1) (push_node numa i s) in
      let (infos', total') =
        push_node-split i s (listing numa k (i + 1)) (sum_total numa k (i + 1)) in
      (infos ∙ infos', total ∙ total')

  size_of-listing :
      (k i j : ℕ)
      → size_of j (listing numa k i) ≡ (
          if leb i j && (ltb j (i + k) && sized numa j)
          then (numa.node_size j).mem_total
          else minus_one)
  unfolding size_of
  size_of-listing zero i j = ground arith
  size_of-listing (suc k) i j =
      ground (arith, size_of-listing k (i + 1) j, (==_iff i j).0, ap numa.node_size {x = i} {y = j})

-- The first query reads the nodes; the total is the sum of the sizes of those that have one, and the
-- size of a node is -1 if it has none.
pub get_total_mem_size_lem :
    (numa : Numa) (s : TotalMemSize) (j : ℕ)
    → s.init ≡ false
    → ((get_total_mem_size numa s).0 ≡ sum_total numa (suc numa.max_node) 0)
      × ((get_total_mem_size_of numa j s).0 ≡ (
          if leb j numa.max_node && sized numa j then (numa.node_size j).mem_total else minus_one))
unfolding get_total_mem_size get_total_mem_size_of update
get_total_mem_size_lem numa s j new =
    let start : TotalMemSize = record { node_info = []; total_mem = pos 0; init = s.init } in
    let (infos, total) = push_nodes_lem numa (suc numa.max_node) 0 start in
    let fresh : updated numa s ≡ update numa s = rw new in
    (
      ap (λ (u : TotalMemSize). u.total_mem) fresh ∙ total ∙ omega int_laws,
      ap (λ (u : TotalMemSize). size_of j u.node_info) fresh
          ∙ ap (size_of j) infos
          ∙ size_of-listing numa (suc numa.max_node) 0 j
          ∙ ground arith,
    )
