-- ===== src/Host/NodeTestDist.antt =====
-- src/sysinfo/host/static/node_test_dist.cpp: the distances between the NUMA nodes, as the benchmark
-- measures them. `node_num` is what `NodeCpu` answers; a run of the benchmark, on the processors of one
-- node and the memory of another, is an argument: the time that it prints, or `none` where popen fails.
pub mod Stale
use libvsf.Prelude.{
  ℕ, zero, suc, ◌+◌, Bool, true, false, ◌&&◌, Option, none, some, List, [], ◌∷◌, ◌++◌, ◌==◌,
  if◌then◌else◌,
}
use libvsf.Prelude.Int.{ℤ, pos, eqb_ℤ}
use libvsf.Prelude.Double.{Double}
use libvsf.Prelude.Exec.{Result, ok, err, uninitialized_read, Exec}
use libvsf.Utils.StrTools.{Text, eq_text}
use libvsf.Host.NodeSysDist.{Distances, at_each}

pub record MicroParam : Type 0 where
  pub path : Text
  pub size_in_mb : ℤ
  pub type : ℕ
  pub loop : ℤ

-- MicroParam(): the directory ".", and a random work load.
abbrev pub default_param : MicroParam
default_param = record { path = b'.' ∷ []; size_in_mb = pos 20; type = b'r'; loop = pos 200 }

-- operator==
unfoldable pub micro_eq : MicroParam → MicroParam → Bool
micro_eq lp rp =
    eq_text lp.path rp.path
    && eqb_ℤ lp.size_in_mb rp.size_in_mb
    && lp.type == rp.type
    && eqb_ℤ lp.loop rp.loop

pub record NodeTestDist : Type 0 where
  pub node_test_dist : Distances
  pub has_data : Bool
  pub param : MicroParam
  pub last_param : MicroParam

unfoldable pub set_param : MicroParam → NodeTestDist → NodeTestDist
set_param p s = record s { last_param = s.param; param = p }

unfoldable pub clear_param : NodeTestDist → NodeTestDist
clear_param s = record s { param = default_param }

unfoldable pub clear : NodeTestDist → NodeTestDist
clear s = record s { node_test_dist = []; has_data = false }

-- What is set before the number of the nodes is asked for.
abbrev pub begin_test : NodeTestDist → NodeTestDist
begin_test s = record s { node_test_dist = []; has_data = true; last_param = s.param }

-- Whether the data is that of the parameters.
abbrev pub up_to_date : NodeTestDist → Bool
up_to_date s = s.has_data && micro_eq s.last_param s.param

module _ (d : Double) where
  open d use {F, of_ℕ, mul, div, to_int}

  abbrev pub Bench : Type 0
  Bench = MicroParam → ℕ → ℕ → Option F

  -- The inner loop, with its rounds left, `base_time` and `row`. `base_time` has no value before the
  -- round of the node itself. The result is `none` where popen has failed.
  unfoldable pub measure_row :
      (ℕ → Option F) → ℕ → ℕ → ℕ → Option F → List ℤ → Result (Option (List ℤ))
  measure_row run cpu zero mem base_time row = ok (some row)
  measure_row run cpu (suc k) mem base_time row = elim (run mem) [
    | none ↦ ok none
    | some time ↦ elim (if mem == cpu then some time else base_time) [
      | none ↦ err uninitialized_read
      | some base ↦
          measure_row run cpu k (mem + 1) (some base)
            (row ++ to_int (mul (div time base) (of_ℕ 10)) ∷ [])
    ]
  ]

  -- The outer loop, with its rounds left and the rows before.
  unfoldable pub measure : (ℕ → ℕ → Option F) → ℕ → ℕ → ℕ → Distances → Result Distances
  measure run node_size zero cpu rows = ok rows
  measure run node_size (suc k) cpu rows = elim (measure_row (run cpu) cpu node_size 0 none []) [
    | err e ↦ err e
    | ok none ↦ ok rows
    | ok (some row) ↦ measure run node_size k (cpu + 1) (rows ++ row ∷ [])
  ]

  abbrev pub store : Result Distances → Exec NodeTestDist Distances
  store (ok rows) s = (ok rows, record s { node_test_dist = rows })
  store (err e) s = (err e, s)

  -- A measurement once it has begun, on as many nodes as are given.
  unfoldable pub run_test : ℕ → Bench → Exec NodeTestDist Distances
  run_test node_size bench s = store (measure (bench s.param) node_size node_size 0 []) s

  unfoldable pub get_node_test_dist : ℕ → Bench → Exec NodeTestDist Distances
  get_node_test_dist node_num bench s =
      if up_to_date s then (ok s.node_test_dist, s) else run_test node_num bench (begin_test s)

  unfoldable pub get_node_test_dist_of : ℕ → Bench → ℕ → ℕ → Exec NodeTestDist ℤ
  get_node_test_dist_of node_num bench i j s =
      let (r, s') = get_node_test_dist node_num bench s in (at_each i j r, s')
