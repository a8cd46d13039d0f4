-- ===== src/Host/NodeSysDist/Table.antt =====
-- The table is the one that `numactl` prints.
use mathlib.Core.List.{append_assoc, append-nil}
use libvsf.Prelude.{
  ℕ, zero, suc, ◌≡◌, refl, sym, ap, ◌∙◌, true, false, some, none, List, [], ◌∷◌, ◌++◌, map,
  replicate, All, drop,
}
use libvsf.Prelude.Exec.{ok}
use libvsf.Utils.StrTools.{Text, split_from, split, eq_text}
use libvsf.Utils.StrTools.Split.{IsPiece, join, split-join, split_from-piece, split_from-delim}
use libvsf.Utils.Numbers.{atoi}
use libvsf.Host.NodeSysDist.{NodeSysDist, title, read_distances, row_of, rows_of, get_node_sys_dist}

-- A number in its field: the spaces before it, and its text, after which there is one more space.
abbrev pub Cell : Type 0
Cell = ℕ × Text

abbrev pub printed : List Cell → Text
printed [] = []
printed ((k, p) ∷ cells) = replicate k 32 ++ (p ++ 32 ∷ printed cells)

split_from-spaces :
    (k : ℕ) (rest : Text) (ret : List Text)
    → split_from 32 (replicate k 32 ++ rest) [] ret ≡ split_from 32 rest [] ret
unfolding split_from
split_from-spaces zero rest ret = refl
split_from-spaces (suc k) rest ret = split_from-spaces k rest ret

split_from-printed :
    (cells : List Cell) (ret : List Text)
    → All (λ c. IsPiece 32 c.1) cells
    → split_from 32 (printed cells) [] ret ≡ ret ++ map (λ c. c.1) cells
unfolding split_from
split_from-printed [] ret h = sym (append-nil ret)
split_from-printed ((k, p) ∷ cells) ret h =
    split_from-spaces k (p ++ 32 ∷ printed cells) ret
    ∙ split_from-piece 32 p (32 ∷ printed cells) [] ret h.0.1
    ∙ split_from-delim 32 p (printed cells) ret h.0.0
    ∙ split_from-printed cells (ret ++ p ∷ []) h.1
    ∙ append_assoc ret (p ∷ []) (map (λ c. c.1) cells)

map-map {ℓ} :
    {A B C : Type ℓ} (f : A → B) (g : B → C) (xs : List A)
    → map g (map f xs) ≡ map (λ x. g (f x)) xs
map-map f g [] = refl
map-map f g (x ∷ xs) = ap (λ r. g (f x) ∷ r) (map-map f g xs)

row_of-printed :
    (label : Cell) (cells : List Cell)
    → All (λ c. IsPiece 32 c.1) (label ∷ cells)
    → row_of (printed (label ∷ cells)) ≡ map (λ c. atoi c.1) cells
unfolding row_of split
row_of-printed label cells h =
    ap (λ ps. map atoi (drop 1 ps)) (split_from-printed (label ∷ cells) [] h)
    ∙ map-map (λ (c : Cell). c.1) atoi cells

-- The lines with their ends.
abbrev pub ended : List Text → List Text
ended lines = map (λ (l : Text). l ++ 10 ∷ []) lines

read_distances-title :
    (before after : List Text) (res : Text)
    → All (λ l. eq_text l title ≡ false) before
    → read_distances false (before ++ title ∷ after) res ≡ read_distances true after res
unfolding read_distances
read_distances-title [] after res h = refl
read_distances-title (l ∷ before) after res h =
    rw (h.0, read_distances) (read_distances-title before after res h.1)

read_distances-ended :
    (lines : List Text) (res : Text) → read_distances true (ended lines) res ≡ res ++ join 10 lines
unfolding read_distances
read_distances-ended [] res = sym (append-nil res)
read_distances-ended (l ∷ lines) res =
    read_distances-ended lines (res ++ (l ++ 10 ∷ []))
    ∙ append_assoc res (l ++ 10 ∷ []) (join 10 lines)
    ∙ ap (λ u. res ++ u) (append_assoc l (10 ∷ []) (join 10 lines))

-- A row with its label.
abbrev pub Row : Type 0
Row = Cell × List Cell

abbrev pub line_of : Row → Text
line_of row = printed (row.0 ∷ row.1)

abbrev pub IsRow : Row → Type 0
IsRow row = All (λ c. IsPiece 32 c.1) (row.0 ∷ row.1)

rows_of-lines :
    (rows : List Row)
    → All IsRow rows
    → map row_of (map line_of rows) ≡ map (λ (row : Row). map (λ c. atoi c.1) row.1) rows
rows_of-lines [] h = refl
rows_of-lines (row ∷ rows) h =
    ap (λ r. r ∷ map row_of (map line_of rows)) (row_of-printed row.0 row.1 h.0)
    ∙ ap (λ r. map (λ c. atoi c.1) row.1 ∷ r) (rows_of-lines rows h.1)

-- After the title and the line of the nodes, each row of the output is one of the table: the numbers
-- in its fields, without the label before them. The lines before the title do not matter.
pub get_node_sys_dist_lem :
    (before : List Text) (nodes : Text) (rows : List Row) (s : NodeSysDist)
    → All (λ l. eq_text l title ≡ false) before
    → All (IsPiece 10) (nodes ∷ map line_of rows)
    → All IsRow rows
    → s.has_data ≡ false
    → (get_node_sys_dist (some (before ++ title ∷ ended (nodes ∷ map line_of rows))) s).0
      ≡ ok (map (λ (row : Row). map (λ c. atoi c.1) row.1) rows)
unfolding get_node_sys_dist rows_of
get_node_sys_dist_lem before nodes rows s h k r new =
    let text : read_distances false (before ++ title ∷ ended (nodes ∷ map line_of rows)) []
        ≡ join 10 (nodes ∷ map line_of rows) =
      read_distances-title before (ended (nodes ∷ map line_of rows)) [] h
      ∙ read_distances-ended (nodes ∷ map line_of rows) [] in
    rw (new, text, split-join 10 (nodes ∷ map line_of rows) [] k) (ap ok (rows_of-lines rows r))

-- But where `numactl` cannot be run, the empty table is kept: no later query runs it again, whatever
-- it would print, until the data is cleared.
pub get_node_sys_dist-failed :
    (s : NodeSysDist) (output : List Text)
    → s.has_data ≡ false
    → let s' = (get_node_sys_dist none s).1 in get_node_sys_dist (some output) s' ≡ (ok [], s')
unfolding get_node_sys_dist
get_node_sys_dist-failed s output new = rw new refl
