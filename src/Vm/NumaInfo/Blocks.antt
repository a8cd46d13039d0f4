-- ===== src/Vm/NumaInfo/Blocks.antt =====
-- `MemBlock` and the functions of `NUMAMaps` on the blocks of a process.
use libvsf.Prelude.{ℕ, ◌+◌, Bool, true, false, List, [], ◌∷◌, ◌==◌, if◌then◌else◌, replicate}
use libvsf.Prelude.Int.{ℤ, pos, minus_one, ◌+ℤ◌, ltb_ℤ}
use libvsf.Utils.StrTools.{Text}

abbrev pub max_node_num : ℕ
max_node_num = 8

pub data NumaPolicy : Type 0 where
  default prefer : NumaPolicy

pub data MemType : Type 0 where
  stack heap wtf : MemType

pub record MemBlock : Type 0 where
  pub address : ℕ
  pub numa_policy : NumaPolicy
  pub mem_type : MemType
  pub file : Text
  pub anon : ℤ
  pub dirty : ℤ
  pub active : ℤ
  pub mapped : ℤ
  pub mapmax : ℤ
  pub pages_sum : ℤ
  pub prefer_node : ℤ
  pub num_pages_on_node : List ℤ

-- The constructor: a node whose pages are not told has -1.
abbrev pub new_block : MemBlock
new_block = record {
  address = 0;
  numa_policy = NumaPolicy.default;
  mem_type = MemType.wtf;
  file = [];
  anon = pos 0;
  dirty = pos 0;
  active = pos 0;
  mapped = pos 0;
  mapmax = pos 0;
  pages_sum = pos 0;
  prefer_node = minus_one;
  num_pages_on_node = replicate max_node_num minus_one;
}

-- Whether a block is of the stack or of the heap.
abbrev pub is_private : MemType → Bool
is_private MemType.stack = true
is_private MemType.heap = true
is_private MemType.wtf = false

-- The loop over the nodes of one block, from node `i` on.
unfoldable pub add_except : ℕ → ℕ → List ℤ → ℤ → ℤ
add_except nodeid i [] pages = pages
add_except nodeid i (n ∷ ns) pages =
    add_except nodeid (i + 1) ns (if i == nodeid then pages else pages +ℤ n)

abbrev pub except_from : ℕ → List MemBlock → ℤ → ℤ
except_from nodeid [] pages = pages
except_from nodeid (b ∷ bs) pages =
    except_from nodeid bs
      (if is_private b.mem_type then add_except nodeid 0 b.num_pages_on_node pages else pages)

unfoldable pub count_page_except_node : List MemBlock → ℕ → ℤ
count_page_except_node mem_blocks nodeid = except_from nodeid mem_blocks (pos 0)

-- The pages of one block added to those of the nodes: all of them, or those that are positive.
abbrev pub add_pages : List ℤ → List ℤ → List ℤ
add_pages [] ns = []
add_pages (p ∷ ps) [] = p ∷ ps
add_pages (p ∷ ps) (n ∷ ns) = (p +ℤ n) ∷ add_pages ps ns

abbrev pub add_positive : List ℤ → List ℤ → List ℤ
add_positive [] ns = []
add_positive (p ∷ ps) [] = p ∷ ps
add_positive (p ∷ ps) (n ∷ ns) = (if ltb_ℤ (pos 0) n then p +ℤ n else p) ∷ add_positive ps ns

unfoldable pub count_from : List MemBlock → List ℤ → List ℤ
count_from [] pages = pages
count_from (b ∷ bs) pages = count_from bs (add_positive pages b.num_pages_on_node)

unfoldable pub count_pages_on_nodes : List MemBlock → List ℤ
count_pages_on_nodes mem_blocks = count_from mem_blocks (replicate max_node_num (pos 0))

-- The loop that looks for the node with the most pages, from node `i` on.
unfoldable pub max_from : ℕ → List ℤ → ℤ → ℤ → ℤ
max_from i [] max_page max_node = max_node
max_from i (p ∷ ps) max_page max_node =
    let more = ltb_ℤ max_page p in
    max_from (i + 1) ps (if more then p else max_page) (if more then pos i else max_node)

unfoldable pub node_with_max_mem : List MemBlock → ℤ
node_with_max_mem mem_blocks = max_from 0 (count_pages_on_nodes mem_blocks) (pos 0) minus_one

abbrev pub weighted_from : List MemBlock → List ℤ → List ℤ
weighted_from [] pages = pages
weighted_from (b ∷ bs) pages =
    weighted_from bs (if is_private b.mem_type then add_pages pages b.num_pages_on_node else pages)

unfoldable pub node_with_max_weighted_mem : List MemBlock → ℤ
node_with_max_weighted_mem mem_blocks =
    max_from 0 (weighted_from mem_blocks (replicate max_node_num (pos 0))) (pos 0) minus_one

unfoldable pub has_prefer_block : List MemBlock → Bool
has_prefer_block [] = false
has_prefer_block (b ∷ bs) = elim b.numa_policy [
  | NumaPolicy.prefer ↦ true
  | NumaPolicy.default ↦ false
]

unfoldable pub top_prefer_node : List MemBlock → ℤ
top_prefer_node [] = minus_one
top_prefer_node (b ∷ bs) = b.prefer_node

-- `get_prefered_node` of the blocks that are read.
unfoldable pub get_prefered_node : List MemBlock → ℤ
get_prefered_node mem_blocks =
    if has_prefer_block mem_blocks then top_prefer_node mem_blocks else node_with_max_mem mem_blocks
