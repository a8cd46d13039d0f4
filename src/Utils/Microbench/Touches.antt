-- ===== src/Utils/Microbench/Touches.antt =====
-- The random accesses of the benchmark stay within the arrays.
use native.Mathlib.Nat.{mod-lt}
use libvsf.Prelude.{
  ℕ, zero, suc, ◌+◌, ◌/◌, ◌%◌, ◌≤◌, ◌<◌, ◌≡◌, refl, ◌∙◌, false, List, arith, ◌==◌, length, set,
  length-set,
}
use libvsf.Prelude.Elems.{get_elem?-some}
use libvsf.Prelude.Word.{u64}
use libvsf.Prelude.Exec.{ok, Exec, ◌>>=◌, ◌>>◌, bind-ok, pure, gets}
use libvsf.Utils.Microbench.Load.{
  Work, lrand, rnum, load, store, on_data, touch, touch_each, touch_loop, assign_round,
  assign_rounds, seed, single_static_assignment, copy_halves,
}
use libvsf.Utils.Microbench.Streams.{load-some, store-ok, copy_halves-ok}

touch-ok :
    (size k v x : ℕ) (w : Work) {words dump' : List ℕ}
    → (size == 0) ≡ false
    → load (lrand w.lfsr % size) w.data_chunk ≡ ok v
    → store (lrand w.lfsr % size) (u64 (v + 1)) w.data_chunk ≡ ok words
    → load k w.dump ≡ ok x
    → store k (u64 (x + v)) w.dump ≡ ok dump'
    → touch size k w ≡ (ok tt, record { dump = dump'; data_chunk = words; lfsr = lrand w.lfsr })
unfolding touch rnum
touch-ok size k v x w p l s l' s' = rw (touch, rnum, p, l, s, l', s') refl

-- The arrays of a run, by their lengths.
abbrev pub Fits : ℕ → ℕ → Work → Type 0
Fits a b w = (length w.dump ≡ a) × (length w.data_chunk ≡ b)

-- A part of the run that ends well, with arrays of the same lengths.
abbrev pub Runs : ℕ → ℕ → Exec Work (Unit {0}) → Type 0
Runs a b m = (w : Work) → Fits a b w → (w' : Work) × (m w ≡ (ok tt, w')) × Fits a b w'

module _ {a b : ℕ} where
  pure-Runs : Runs a b (pure tt)
  pure-Runs w h = (w, refl, h)

  >>-Runs : (m k : Exec Work (Unit {0})) → Runs a b m → Runs a b k → Runs a b (m >> k)
  >>-Runs m k f g w h =
      let (w1, e, h1) = f w h in let (w2, e', h2) = g w1 h1 in (w2, bind-ok m (λ _. k) w e ∙ e', h2)

  touch-Runs : (size k : ℕ) → 0 < size → size ≤ b → k < a → Runs a b (touch size k)
  touch-Runs size k p le lt w h =
      let r = lrand w.lfsr % size in
      let r_in : r < length w.data_chunk = omega (arith, mod-lt (lrand w.lfsr) p, h.1) in
      let k_in : k < length w.dump = omega (arith, h.0) in
      let (v, e) = get_elem?-some w.data_chunk r r_in in
      let (x, e') = get_elem?-some w.dump k k_in in
      (
        record {
          dump = set w.dump k (u64 (x + v));
          data_chunk = set w.data_chunk r (u64 (v + 1));
          lfsr = lrand w.lfsr;
        },
        touch-ok size k v x w (ground (arith, p)) (load-some r w.data_chunk e)
            (store-ok r (u64 (v + 1)) w.data_chunk r_in) (load-some k w.dump e')
            (store-ok k (u64 (x + v)) w.dump k_in),
        (length-set w.dump k (u64 (x + v)) ∙ h.0, length-set w.data_chunk r (u64 (v + 1)) ∙ h.1),
      )

  touch_each-Runs :
      (size n k : ℕ) → 0 < size → size ≤ b → k + n ≤ a → Runs a b (touch_each size n k)
  unfolding touch_each
  touch_each-Runs size zero k p le fits = pure-Runs
  touch_each-Runs size (suc n) k p le fits =
      >>-Runs (touch size k) (touch_each size n (k + 1)) (touch-Runs size k p le (omega arith))
        (touch_each-Runs size n (k + 1) p le (omega arith))

  touch_loop-Runs : (size n : ℕ) → 0 < size → size ≤ b → 100 ≤ a → Runs a b (touch_loop size n)
  unfolding touch_loop
  touch_loop-Runs size zero p le fits = pure-Runs
  touch_loop-Runs size (suc n) p le fits =
      >>-Runs (touch_each size 100 0) (touch_loop size n) (touch_each-Runs size 100 0 p le fits)
        (touch_loop-Runs size n p le fits)

  copy-Runs :
      (size : ℕ)
      → size ≤ b
      → Runs a b (gets (λ w. w) >>= λ w. on_data (copy_halves size w.data_chunk))
  copy-Runs size le w h =
      let (words, e, same_size, _) = copy_halves-ok size w.data_chunk (omega (arith, h.1)) in
      (record w { data_chunk = words }, rw e refl, (h.0, same_size ∙ h.1))

  assign_rounds-Runs :
      (size n : ℕ) → 0 < size → size ≤ b → 100 ≤ a → Runs a b (assign_rounds size n)
  unfolding assign_rounds assign_round
  assign_rounds-Runs size zero p le fits = pure-Runs
  assign_rounds-Runs size (suc n) p le fits =
      >>-Runs (assign_round size) (assign_rounds size n)
        (>>-Runs (touch_loop size (size / 800))
          (gets (λ w. w) >>= λ w. on_data (copy_halves size w.data_chunk))
          (touch_loop-Runs size (size / 800) p le fits) (copy-Runs size le))
        (assign_rounds-Runs size n p le fits)

-- With a working set that is not empty, its array, and a dump of 100 words or more, the run ends after
-- its rounds without an access outside the arrays, wherever the register leads and whatever time it
-- begins with. The arrays keep their lengths.
pub single_static_assignment-Fits :
    (size loop_num tv_usec : ℕ) (w : Work)
    → 0 < size
    → size ≤ length w.data_chunk
    → 100 ≤ length w.dump
    → (w' : Work) × (single_static_assignment size loop_num tv_usec w ≡ (ok tt, w'))
      × Fits (length w.dump) (length w.data_chunk) w'
unfolding single_static_assignment
single_static_assignment-Fits size loop_num tv_usec w p le fits =
    assign_rounds-Runs size loop_num p le fits (seed tv_usec w) (refl, refl)
