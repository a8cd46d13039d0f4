-- ===== src/Host/NodeSysDist/Tests.antt =====
-- The theorem on the table applied to the output for two nodes.
use libvsf.Prelude.{◌≡◌, refl, false, some, List, [], ◌∷◌, ◌++◌, map, All}
use libvsf.Prelude.Exec.{ok}
use libvsf.Utils.StrTools.{Text}
use libvsf.Utils.StrTools.Split.{IsPiece}
use libvsf.Utils.Numbers.{atoi}
use libvsf.Host.NodeSysDist.{NodeSysDist, title, get_node_sys_dist}
use libvsf.Host.NodeSysDist.Table.{Row, IsRow, ended, line_of, get_node_sys_dist_lem}

abbrev available : List Text
available = (b'a' ∷ 10 ∷ []) ∷ []

abbrev nodes : Text
nodes = b'n' ∷ []

-- " 0: 10 20" and " 1: 20 10", each with a space behind it
abbrev two_rows : List Row
two_rows =
    ((1, b'0' ∷ b':' ∷ []), (0, b'1' ∷ b'0' ∷ []) ∷ (0, b'2' ∷ b'0' ∷ []) ∷ [])
    ∷ ((1, b'1' ∷ b':' ∷ []), (0, b'2' ∷ b'0' ∷ []) ∷ (0, b'1' ∷ b'0' ∷ []) ∷ [])
    ∷ []

abbrev empty : NodeSysDist
empty = record { node_sys_dist = []; has_data = false }

lines-IsPiece : All (IsPiece 10) (nodes ∷ map line_of two_rows)
lines-IsPiece = (
  (refl, (refl, tt)),
  (
    (refl, (refl, (refl, (refl, (refl, (refl, (refl, (refl, (refl, (refl, (refl, tt))))))))))),
    (
      (refl, (refl, (refl, (refl, (refl, (refl, (refl, (refl, (refl, (refl, (refl, tt))))))))))),
      tt,
    ),
  ),
)

two_rows-IsRow : All IsRow two_rows
two_rows-IsRow = (
  ((refl, (refl, (refl, tt))), ((refl, (refl, (refl, tt))), ((refl, (refl, (refl, tt))), tt))),
  (
    ((refl, (refl, (refl, tt))), ((refl, (refl, (refl, tt))), ((refl, (refl, (refl, tt))), tt))),
    tt,
  ),
)

get_node_sys_dist_lem_example :
    (get_node_sys_dist (some (available ++ title ∷ ended (nodes ∷ map line_of two_rows))) empty).0
    ≡ ok (map (λ (row : Row). map (λ c. atoi c.1) row.1) two_rows)
get_node_sys_dist_lem_example =
    get_node_sys_dist_lem available nodes two_rows empty (refl, tt) lines-IsPiece two_rows-IsRow
      refl
