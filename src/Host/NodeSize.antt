-- ===== src/Host/NodeSize.antt =====
-- src/sysinfo/host/static/node_size.cpp: the sizes of the NUMA nodes, from their meminfo files. What
-- scandir gives and the text of each file are arguments, `none` where they cannot be read; the byte
-- behind what has been read is taken to be zero, and a number to fit an `int`.
mod Tests
pub mod Meminfo
use libvsf.Prelude.{
  ℕ, zero, suc, ◌+◌, ◌/◌, Bool, true, false, Option, none, some, List, [], ◌∷◌, if◌then◌else◌,
  get_elem?, length, set, drop, map_option,
}
use libvsf.Prelude.Int.{ℤ, pos, minus_one}
use libvsf.Prelude.Exec.{Result, ok, err, out_of_bounds, Exec, pure, ◌>>=◌}
use libvsf.Utils.StrTools.{Text, is_digit, prefix_and_digits_node}
use libvsf.Utils.Search.{find_text}
use libvsf.Utils.Numbers.{digits_from}

pub record NodeData : Type 0 where
  pub node_id : ℕ
  pub mbs_total : ℕ
  pub mbs_free : ℕ

-- "node" and digits up to the end.
abbrev pub node_and_digits : Text → Bool
node_and_digits = prefix_and_digits_node

-- How many names scandir takes.
unfoldable pub num_files : List Text → ℕ
num_files [] = 0
num_files (name ∷ names) =
    let rest = num_files names in if node_and_digits name then suc rest else rest

-- "MemTotal:" and "MemFree:"
abbrev pub mem_total : Text
mem_total = b'M' ∷ b'e' ∷ b'm' ∷ b'T' ∷ b'o' ∷ b't' ∷ b'a' ∷ b'l' ∷ b':' ∷ []

abbrev pub mem_free : Text
mem_free = b'M' ∷ b'e' ∷ b'm' ∷ b'F' ∷ b'r' ∷ b'e' ∷ b'e' ∷ b':' ∷ []

-- Behind a name, where that stands.
abbrev pub after_name : Text → Text → Option Text
after_name name p = map_option (λ i. drop (i + length name) p) (find_text name p)

-- On to the next digit; without one it goes on behind the buffer.
unfoldable pub to_digit : Text → Result Text
to_digit [] = err out_of_bounds
to_digit (c ∷ cs) = let rest = to_digit cs in if is_digit c then ok (c ∷ cs) else rest

unfoldable pub skip_digits : Text → Text
skip_digits [] = []
skip_digits (c ∷ cs) = let rest = skip_digits cs in if is_digit c then rest else c ∷ cs

abbrev pub number_at : Result Text → Result (Option (ℕ × Text))
number_at (ok p) = ok (some (digits_from 0 p, skip_digits p))
number_at (err e) = err e

-- The number behind a name, and what follows it; `none` where the name is missing.
unfoldable pub read_size : Text → Text → Result (Option (ℕ × Text))
read_size name p = elim (after_name name p) [ none ↦ ok none | some q ↦ number_at (to_digit q) ]

-- The second number of a node, once the first has been stored: whether the loop goes on.
unfoldable pub read_free : ℕ → NodeData → Text → Exec (List NodeData) Bool
read_free ix node p nodes = elim (read_size mem_free p) [
  | err e ↦ (err e, nodes)
  | ok none ↦ (ok false, nodes)
  | ok (some (kb, rest)) ↦ (ok true, set nodes ix (record node { mbs_free = kb / 1024 }))
]

-- One round of the loop for the node at `ix`.
unfoldable pub read_node : Option Text → ℕ → NodeData → Exec (List NodeData) Bool
read_node none ix node nodes = (ok false, nodes)
read_node (some buf) ix node nodes = elim (read_size mem_total buf) [
  | err e ↦ (err e, nodes)
  | ok none ↦ (ok false, nodes)
  | ok (some (kb, rest)) ↦
      let node' = record node { mbs_total = kb / 1024 } in
      read_free ix node' rest (set nodes ix node')
]

-- The loop, with its rounds and the place of the node. A node behind the array is out of bounds.
unfoldable pub read_nodes : (ℕ → Option Text) → ℕ → ℕ → Exec (List NodeData) Bool
read_nodes meminfo zero ix nodes = (ok true, nodes)
read_nodes meminfo (suc n) ix nodes = elim (get_elem? nodes ix) [
  | none ↦ (err out_of_bounds, nodes)
  | some node ↦
      (do
        goes_on ← read_node (meminfo node.node_id) ix node
        elim goes_on [ true ↦ read_nodes meminfo n (ix + 1) | false ↦ pure false ])
        nodes
]

abbrev pub num_or_error : ℤ → Result Bool × List NodeData → Result ℤ × List NodeData
num_or_error num_nodes (ok true, nodes) = (ok num_nodes, nodes)
num_or_error num_nodes (ok false, nodes) = (ok minus_one, nodes)
num_or_error num_nodes (err e, nodes) = (err e, nodes)

-- A number of nodes above the size of the array is only told of. A scandir that has failed gives -1.
unfoldable pub get_node_size_info : Option (List Text) → (ℕ → Option Text) → Exec (List NodeData) ℤ
get_node_size_info none meminfo nodes = (ok minus_one, nodes)
get_node_size_info (some names) meminfo nodes =
    num_or_error (pos (num_files names)) (read_nodes meminfo (num_files names) 0 nodes)
