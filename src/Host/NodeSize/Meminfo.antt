-- ===== src/Host/NodeSize/Meminfo.antt =====
-- What is read of meminfo files.
use libvsf.Prelude.{
  ℕ, ◌+◌, ◌/◌, ◌<◌, ◌≡◌, true, false, Option, some, List, ◌∷◌, ◌++◌, length, All, get_elem?,
  map_option, leb, ltb, ◌&&◌, if◌then◌else◌,
}
use libvsf.Utils.StrTools.{Text, is_digit}
use libvsf.Utils.Search.{find_text}
use libvsf.Utils.Microbench.Sizes.{decimal}
use libvsf.Host.NodeSize.{NodeData, mem_total, mem_free}

-- A line of the file: what stands before the name, the gap behind it without digits, and the number.
pub record Entry : Type 0 where
  pub pre : Text
  pub gap : Text
  pub digits : Text

-- The text from the entry on; the number ends at a space.
abbrev pub text_of : Text → Entry → Text → Text
text_of name e rest = (e.pre ++ name) ++ (e.gap ++ (e.digits ++ 32 ∷ rest))

abbrev pub IsEntry : Text → Entry → Text → Type 0
IsEntry name e rest =
    (find_text name (text_of name e rest) ≡ some (length e.pre))
    × All (λ d. is_digit d ≡ false) e.gap
    × All (λ d. is_digit d ≡ true) e.digits
    × (0 < length e.digits)

-- A file with both sizes, in kilobytes.
abbrev pub Holds : Text → ℕ → ℕ → Type 0
Holds buf total free =
    (e1 e2 : Entry) × (rest1 rest2 : Text) × (buf ≡ text_of mem_total e1 rest1)
    × IsEntry mem_total e1 rest1
    × (32 ∷ rest1 ≡ text_of mem_free e2 rest2)
    × IsEntry mem_free e2 rest2
    × (decimal 0 e1.digits ≡ total)
    × (decimal 0 e2.digits ≡ free)

abbrev pub sized : ℕ → ℕ → NodeData → NodeData
sized total free node = record node { mbs_total = total / 1024; mbs_free = free / 1024 }

module _ (meminfo : ℕ → Option Text) (size : ℕ → ℕ × ℕ) where
  -- The file of a node is there and holds its sizes.
  abbrev pub Readable : NodeData → Type 0
  Readable node =
      (buf : Text) × (meminfo node.node_id ≡ some buf)
      × Holds buf (size node.node_id).0 (size node.node_id).1

  abbrev pub filled : NodeData → NodeData
  filled node = sized (size node.node_id).0 (size node.node_id).1 node

  -- What the rounds from `ix` on leave at each place.
  abbrev pub filled_from : ℕ → ℕ → List NodeData → ℕ → Option NodeData
  filled_from n ix nodes i =
      if leb ix i && ltb i (ix + n)
      then map_option filled (get_elem? nodes i)
      else get_elem? nodes i
