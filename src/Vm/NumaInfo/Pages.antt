-- ===== src/Vm/NumaInfo/Pages.antt =====
-- What the counts of pages are.
use libvsf.Prelude.{
  ℕ, zero, suc, ◌+◌, ◌<◌, ◌≡◌, refl, ap, ◌∙◌, some, List, [], ◌∷◌, arith, ◌==◌, if◌then◌else◌,
  get_elem?, get_or, All, replicate,
}
use libvsf.Prelude.Int.{ℤ, pos, pos_part, neg_part, ◌+ℤ◌, ◌≤ℤ◌, +ℤ_parts, eq_of_parts}
use libvsf.Vm.NumaInfo.Blocks.{
  MemBlock, is_private, add_except, except_from, count_page_except_node, add_positive, count_from,
  count_pages_on_nodes, max_node_num,
}

-- The pages on the nodes other than one, from the node `i` on, and what is negative there: 1 for each
-- node that has -1.
abbrev pub told : ℕ → ℕ → List ℤ → ℕ
told nodeid i [] = 0
told nodeid i (n ∷ ns) = (if i == nodeid then 0 else pos_part n) + told nodeid (i + 1) ns

abbrev pub untold : ℕ → ℕ → List ℤ → ℕ
untold nodeid i [] = 0
untold nodeid i (n ∷ ns) = (if i == nodeid then 0 else neg_part n) + untold nodeid (i + 1) ns

-- The same over the blocks of the stack and of the heap.
abbrev pub sum_private : (List ℤ → ℕ) → List MemBlock → ℕ
sum_private f [] = 0
sum_private f (b ∷ bs) =
    (if is_private b.mem_type then f b.num_pages_on_node else 0) + sum_private f bs

add_except-parts :
    (nodeid i : ℕ) (ns : List ℤ) (p : ℤ)
    → let r = add_except nodeid i ns p in
      pos_part r + untold nodeid i ns + neg_part p ≡ neg_part r + told nodeid i ns + pos_part p
unfolding add_except
add_except-parts nodeid i [] p = omega arith
add_except-parts nodeid i (n ∷ ns) p = ground (
  arith,
  add_except-parts nodeid (i + 1) ns p,
  add_except-parts nodeid (i + 1) ns (p +ℤ n),
  +ℤ_parts p n,
)

except_from-parts :
    (nodeid : ℕ) (bs : List MemBlock) (p : ℤ)
    → let r = except_from nodeid bs p in
      pos_part r + sum_private (untold nodeid 0) bs + neg_part p
      ≡ neg_part r + sum_private (told nodeid 0) bs + pos_part p
except_from-parts nodeid [] p = omega arith
except_from-parts nodeid (b ∷ bs) p =
    let q = add_except nodeid 0 b.num_pages_on_node p in
    ground (
      arith,
      except_from-parts nodeid bs p,
      except_from-parts nodeid bs q,
      add_except-parts nodeid 0 b.num_pages_on_node p,
    )

-- `count_page_except_node` is too small: it is the number of pages of the stack and the heap on the
-- other nodes, less one for each block and other node where the block tells nothing and has -1.
pub count_page_except_node_lem :
    (bs : List MemBlock) (nodeid : ℕ)
    → count_page_except_node bs nodeid +ℤ pos (sum_private (untold nodeid 0) bs)
      ≡ pos (sum_private (told nodeid 0) bs)
unfolding count_page_except_node
count_page_except_node_lem bs nodeid =
    let r = except_from nodeid bs (pos 0) in
    let missing : ℤ = pos (sum_private (untold nodeid 0) bs) in
    eq_of_parts (r +ℤ missing) (pos (sum_private (told nodeid 0) bs))
      (omega (arith, except_from-parts nodeid bs (pos 0), +ℤ_parts r missing))

-- The pages of a node over all blocks, where a block tells them.
abbrev pub pages_on : ℕ → List MemBlock → ℕ
pages_on i [] = 0
pages_on i (b ∷ bs) = pos_part (get_or (get_elem? b.num_pages_on_node i) (pos 0)) + pages_on i bs

get_elem?-add_positive :
    (ps ns : List ℤ) (i p : ℕ)
    → get_elem? ps i ≡ some (pos p)
    → get_elem? (add_positive ps ns) i ≡ some (pos (p + pos_part (get_or (get_elem? ns i) (pos 0))))
get_elem?-add_positive [] ns i p h = ground (arith, h)
get_elem?-add_positive (q ∷ ps) [] zero p h = ground (arith, h)
get_elem?-add_positive (q ∷ ps) [] (suc i) p h = ground (arith, h)
get_elem?-add_positive (q ∷ ps) (n ∷ ns) zero p h =
    ground (arith, h, +ℤ_parts q n, eq_of_parts (q +ℤ n) (pos (p + pos_part n)))
get_elem?-add_positive (q ∷ ps) (n ∷ ns) (suc i) p h = get_elem?-add_positive ps ns i p h

get_elem?-count_from :
    (bs : List MemBlock) (ps : List ℤ) (i p : ℕ)
    → get_elem? ps i ≡ some (pos p)
    → get_elem? (count_from bs ps) i ≡ some (pos (p + pages_on i bs))
unfolding count_from
get_elem?-count_from [] ps i p h = ground (arith, h)
get_elem?-count_from (b ∷ bs) ps i p h =
    let q = pos_part (get_or (get_elem? b.num_pages_on_node i) (pos 0)) in
    get_elem?-count_from bs (add_positive ps b.num_pages_on_node) i (p + q)
      (get_elem?-add_positive ps b.num_pages_on_node i p h)
    ∙ ap (λ n. some (pos n)) (omega arith)

get_elem?-replicate : (n i : ℕ) → i < n → get_elem? (replicate n (pos 0)) i ≡ some (pos 0)
get_elem?-replicate zero i h = ground (arith, h)
get_elem?-replicate (suc n) zero h = refl
get_elem?-replicate (suc n) (suc i) h = get_elem?-replicate n i (omega (arith, h))

-- Of the eight nodes each gets the number of its pages, whatever blocks tell nothing of it.
pub count_pages_on_nodes_lem :
    (bs : List MemBlock) (i : ℕ)
    → i < max_node_num
    → get_elem? (count_pages_on_nodes bs) i ≡ some (pos (pages_on i bs))
unfolding count_pages_on_nodes
count_pages_on_nodes_lem bs i h =
    get_elem?-count_from bs (replicate max_node_num (pos 0)) i 0
      (get_elem?-replicate max_node_num i h)
    ∙ ap (λ n. some (pos n)) (omega arith)

All-≤ : (a b : ℤ) (ps : List ℤ) → a ≤ℤ b → All (λ p. p ≤ℤ a) ps → All (λ p. p ≤ℤ b) ps
All-≤ a b [] h k = tt
All-≤ a b (p ∷ ps) h k = (omega (arith, h, k.0), All-≤ a b ps h k.1)
