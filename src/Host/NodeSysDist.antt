-- ===== src/Host/NodeSysDist.antt =====
-- src/sysinfo/host/static/node_sys_dist.cpp: the distances between the NUMA nodes, as `numactl` prints
-- them. Its output is an argument: the lines with their ends, or `none` where popen fails.
mod Tests
pub mod Table
use libvsf.Prelude.{
  ℕ, Bool, true, false, ◌||◌, Option, none, some, List, [], ◌∷◌, ◌++◌, map, if◌then◌else◌,
  get_elem?, drop,
}
use libvsf.Prelude.Int.{ℤ}
use libvsf.Prelude.Exec.{Result, ok, err, out_of_bounds, Exec}
use libvsf.Utils.StrTools.{Text, split, eq_text}
use libvsf.Utils.Numbers.{atoi}

abbrev pub Distances : Type 0
Distances = List (List ℤ)

pub record NodeSysDist : Type 0 where
  pub node_sys_dist : Distances
  pub has_data : Bool

-- "node distances:\n"
abbrev pub title : Text
title =
    b'n' ∷ b'o' ∷ b'd' ∷ b'e' ∷ 32 ∷ b'd' ∷ b'i' ∷ b's' ∷ b't' ∷ b'a' ∷ b'n' ∷ b'c' ∷ b'e' ∷ b's'
    ∷ b':' ∷ 10 ∷ []

-- The loop over the lines, with `dist_flag` and `res`.
unfoldable pub read_distances : Bool → List Text → Text → Text
read_distances dist_flag [] res = res
read_distances dist_flag (buf ∷ bufs) res =
    read_distances (dist_flag || eq_text buf title) bufs (if dist_flag then res ++ buf else res)

-- One line, without its label.
unfoldable pub row_of : Text → List ℤ
row_of line = map atoi (drop 1 (split line 32 []))

-- The first line is skipped, which has to be there.
unfoldable pub rows_of : List Text → Result Distances
rows_of [] = err out_of_bounds
rows_of (line ∷ lines) = ok (map row_of lines)

abbrev pub store : Result Distances → Exec NodeSysDist Distances
store (ok rows) s = (ok rows, record { node_sys_dist = rows; has_data = true })
store (err e) s = (err e, record { node_sys_dist = []; has_data = true })

unfoldable pub get_node_sys_dist : Option (List Text) → Exec NodeSysDist Distances
get_node_sys_dist output s = if s.has_data then (ok s.node_sys_dist, s) else elim output [
  | none ↦ (ok [], record { node_sys_dist = []; has_data = true })
  | some bufs ↦ store (rows_of (split (read_distances false bufs []) 10 [])) s
]

-- table[node_id_0][node_id_1], of ids that are not negative.
unfoldable pub at : ℕ → ℕ → Distances → Result ℤ
at i j rows = elim (get_elem? rows i) [
  | none ↦ err out_of_bounds
  | some row ↦ elim (get_elem? row j) [ none ↦ err out_of_bounds | some x ↦ ok x ]
]

abbrev pub at_each : ℕ → ℕ → Result Distances → Result ℤ
at_each i j (ok rows) = at i j rows
at_each i j (err e) = err e

unfoldable pub get_node_sys_dist_of : Option (List Text) → ℕ → ℕ → Exec NodeSysDist ℤ
get_node_sys_dist_of output i j s = let (r, s') = get_node_sys_dist output s in (at_each i j r, s')

unfoldable pub clear : NodeSysDist → NodeSysDist
clear s = record { node_sys_dist = []; has_data = false }
