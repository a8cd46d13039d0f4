-- ===== src/Host/NodeTestDist/Stale.antt =====
-- Which measurement a query answers with, and what it measures on more than one node.
use libvsf.Prelude.{
  ℕ, zero, suc, ◌+◌, ◌≡◌, refl, true, false, some, List, [], ◌∷◌, arith, ◌==◌, Bool-cases, inl, inr,
}
use libvsf.Prelude.Int.{ℤ}
use libvsf.Prelude.Double.{Double}
use libvsf.Prelude.Exec.{ok, err, uninitialized_read}
use libvsf.Utils.StrTools.{Text, eq_text}
use libvsf.Host.NodeTestDist.{
  MicroParam, micro_eq, NodeTestDist, set_param, Bench, measure_row, measure, run_test,
  get_node_test_dist,
}

eq_text_refl : (t : Text) → eq_text t t ≡ true
eq_text_refl [] = refl
eq_text_refl (c ∷ cs) = ground (arith, eq_text_refl cs)

micro_eq_refl : (p : MicroParam) → micro_eq p p ≡ true
unfolding micro_eq
micro_eq_refl p = ground (arith, eq_text_refl p.path)

module _ (d : Double) where
  -- Setting the same parameters twice after a measurement makes the next query answer with it, though
  -- it was made with other parameters: the second call takes the first for the one measured with.
  pub get_node_test_dist-set_param :
      (s : NodeTestDist) (p : MicroParam) (node_num : ℕ) (bench : Bench d)
      → s.has_data ≡ true
      → (get_node_test_dist d node_num bench (set_param p (set_param p s))).0 ≡ ok s.node_test_dist
  unfolding get_node_test_dist set_param
  get_node_test_dist-set_param s p node_num bench h = rw (h, micro_eq_refl p) refl

  -- With the base time known, a row is completed.
  measure_row-ok :
      (time : ℕ → d.F) (cpu k mem : ℕ) (base : d.F) (row : List ℤ)
      → (r : List ℤ) × (measure_row d (λ i. some (time i)) cpu k mem (some base) row ≡ ok (some r))
  unfolding measure_row
  measure_row-ok time cpu zero mem base row = (row, refl)
  measure_row-ok time cpu (suc k) mem base row = elim (Bool-cases (mem == cpu)) [
    | inl e ↦ rw (e, measure_row) (measure_row-ok time cpu k (mem + 1) (time mem) _)
    | inr e ↦ rw (e, measure_row) (measure_row-ok time cpu k (mem + 1) base _)
  ]

  -- But on two nodes or more a measurement reads `base_time` before it has a value, whatever the runs
  -- of the benchmark print: the second row begins with another node than its own.
  pub get_node_test_dist-uninitialized :
      (s : NodeTestDist) (k : ℕ) (time : MicroParam → ℕ → ℕ → d.F)
      → s.has_data ≡ false
      → (get_node_test_dist d (suc (suc k)) (λ p i j. some (time p i j)) s).0
        ≡ err uninitialized_read
  unfolding get_node_test_dist run_test measure measure_row
  get_node_test_dist-uninitialized s k time new =
      let run = time s.param in
      let (r, e) =
        measure_row-ok (run 0) 0 (suc k) 1 (run 0 0)
          (d.to_int (d.mul (d.div (run 0 0) (run 0 0)) (d.of_ℕ 10)) ∷ []) in
      rw (new, e) refl
