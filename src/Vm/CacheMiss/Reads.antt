-- ===== src/Vm/CacheMiss/Reads.antt =====
-- The reads of `CacheMissData`: they change neither the descriptors of an entry nor the kernel's, and
-- a count is what the kernel has counted between the two.
use libvsf.Prelude.{
  ℕ, ◌-◌, ◌≡◌, refl, ap, ◌∙◌, Bool, true, some, [], ◌∷◌, arith, Option-cases, inl, inr,
}
use libvsf.Prelude.Double.{Double}
use libvsf.Container.Order.{nat_less}
use libvsf.Container.Map.{Map, keys}
use libvsf.Container.Map.Total.{total}
use libvsf.Vm.CacheMiss.Kernel.{PerfKernel, HoldsDescriptors}
use libvsf.Vm.CacheMiss.Data.{
  PerfData, note_first, note_second, read_perf, first_read_perf, second_read_perf, record_second,
  CacheMissData, update_miss_rate, clear_data, clear_perf,
}
use libvsf.Vm.CacheMiss.Sample.{read_each, first_read, second_read, read_all}
use libvsf.Vm.CacheMiss.Accounts.{fds}

read_perf-some :
    (k : PerfKernel) (p : PerfData) (f : ℕ) (w : k.World)
    → p.fd ≡ some f
    → read_perf k p w ≡ k.read f w
unfolding read_perf
read_perf-some k p f w e = rw e refl

first_read_perf-ok :
    (k : PerfKernel) (p : PerfData) (a : ℕ) (w w1 : k.World)
    → read_perf k p w ≡ (some (some a), w1)
    → first_read_perf k p w ≡ (true, record p { first_time = a }, w1)
unfolding first_read_perf
first_read_perf-ok k p a w w1 e = ap (note_first k p) e

second_read_perf-ok :
    (k : PerfKernel) (p : PerfData) (a : ℕ) (w w1 : k.World)
    → read_perf k p w ≡ (some (some a), w1)
    → second_read_perf k p w ≡ (true, record_second a p, w1)
unfolding second_read_perf
second_read_perf-ok k p a w w1 e = ap (note_second k p) e

-- After two successful reads of a counter by one descriptor the count is the difference, or 0 where
-- the counter has gone back; the times are the two readings.
pub second_read-first_read :
    (k : PerfKernel) (p : PerfData) (f a b : ℕ) (w w1 w2 w3 : k.World)
    → p.fd ≡ some f
    → k.read f w ≡ (some (some a), w1)
    → k.read f w2 ≡ (some (some b), w3)
    → let (good, p1, v1) = first_read_perf k p w in
      let (good', p2, v2) = second_read_perf k p1 w2 in
      (good ≡ true) × (v1 ≡ w1) × (good' ≡ true) × (v2 ≡ w3) × (p2.count ≡ b - a) × (p2.fd ≡ some f)
unfolding record_second
second_read-first_read k p f a b w w1 w2 w3 e e1 e2 =
    let p1 : PerfData = record p { first_time = a } in
    rw
      (
        first_read_perf-ok k p a w w1 (read_perf-some k p f w e ∙ e1),
        second_read_perf-ok k p1 b w2 w3 (read_perf-some k p1 f w2 e ∙ e2),
      )
      (refl, refl, refl, refl, ground arith, e)

module _ (k : PerfKernel) (h : HoldsDescriptors k) where
  open h use {held}

  -- A read that keeps its descriptor, and every descriptor of the process.
  abbrev Harmless : (PerfData → k.World → Bool × PerfData × k.World) → Type 0
  Harmless one_read =
      (p : PerfData) (w : k.World)
      → let (good, p', w') = one_read p w in (p'.fd ≡ p.fd) × ((j : ℕ) → held w' j ≡ held w j)

  held-read_perf : (p : PerfData) (w : k.World) (j : ℕ) → held (read_perf k p w).1 j ≡ held w j
  unfolding read_perf
  held-read_perf p w j = elim (Option-cases p.fd) [
    | inl e ↦ rw e refl
    | inr (f, e) ↦ rw e (h.held-read f w j)
  ]

  first_read_perf-Harmless : Harmless (first_read_perf k)
  unfolding first_read_perf
  first_read_perf-Harmless p w = (ground arith, λ j. ground (arith, held-read_perf p w j))

  second_read_perf-Harmless : Harmless (second_read_perf k)
  unfolding second_read_perf record_second
  second_read_perf-Harmless p w = (ground arith, λ j. ground (arith, held-read_perf p w j))

  pub read_each-Harmless :
      (d : Double) (one_read : PerfData → k.World → Bool × PerfData × k.World)
      → Harmless one_read
      → (c : CacheMissData d.F) (w : k.World) (j : ℕ)
      → let (good, c', w') = read_each k d one_read c w in
        (fds j c' ≡ fds j c) × (held w' j ≡ held w j)
  unfolding read_each clear_data clear_perf
  read_each-Harmless d one_read ok c w j =
      let (a, misses, w1) = one_read c.cache_misses w in
      let (b, cycles, w2) = one_read c.cpu_cycles w1 in
      let (e, executed, w3) = one_read c.instructions w2 in
      let (m, m') = ok c.cache_misses w in
      let (y, y') = ok c.cpu_cycles w1 in
      let (x, x') = ok c.instructions w2 in
      let (r, r') = ok c.cache_references w3 in
      (ground (arith, m, y, x, r), ground (arith, m' j, y' j, x' j, r' j))

  first_read-Harmless :
      (d : Double) (c : CacheMissData d.F) (w : k.World) (j : ℕ)
      → let (good, c', w') = first_read k d c w in (fds j c' ≡ fds j c) × (held w' j ≡ held w j)
  first_read-Harmless d = read_each-Harmless d (first_read_perf k) first_read_perf-Harmless

  second_read-Harmless :
      (d : Double) (c : CacheMissData d.F) (w : k.World) (j : ℕ)
      → let (good, c', w') = second_read k d c w in (fds j c' ≡ fds j c) × (held w' j ≡ held w j)
  unfolding update_miss_rate
  second_read-Harmless d c w j =
      ground (arith, read_each-Harmless d (second_read_perf k) second_read_perf-Harmless c w j)

  -- A loop that reads each entry keeps the keys, and the descriptors in all.
  pub read_all-Harmless :
      (d : Double) (one_read : CacheMissData d.F → k.World → Bool × CacheMissData d.F × k.World)
      → ((c : CacheMissData d.F) (w : k.World) (j : ℕ)
          → let (good, c', w') = one_read c w in (fds j c' ≡ fds j c) × (held w' j ≡ held w j))
      → (m : Map ℕ (CacheMissData d.F)) (w : k.World)
      → let (failed, m', w') = read_all k d one_read m w in
        (keys m' ≡ keys m)
        × ((j : ℕ) → (total (fds j) m' ≡ total (fds j) m) × (held w' j ≡ held w j))
  unfolding read_all keys
  read_all-Harmless d one_read ok [] w = (refl, λ j. (refl, refl))
  read_all-Harmless d one_read ok ((tid, c) ∷ m) w =
      let w' = (one_read c w).2 in
      let (same_keys, rest) = read_all-Harmless d one_read ok m w' in
      (
        ap (λ ks. tid ∷ ks) same_keys,
        λ j.
            let (same_fds, same_held) = ok c w j in
            let (t, r) = rest j in (omega (arith, same_fds, t), r ∙ same_held),
      )

  -- The two loops of a sample.
  pub first_reads :
      (d : Double) (m : Map ℕ (CacheMissData d.F)) (w : k.World)
      → let (failed, m', w') = read_all k d (first_read k d) m w in
        (keys m' ≡ keys m)
        × ((j : ℕ) → (total (fds j) m' ≡ total (fds j) m) × (held w' j ≡ held w j))
  first_reads d = read_all-Harmless d (first_read k d) (first_read-Harmless d)

  pub second_reads :
      (d : Double) (m : Map ℕ (CacheMissData d.F)) (w : k.World)
      → let (failed, m', w') = read_all k d (second_read k d) m w in
        (keys m' ≡ keys m)
        × ((j : ℕ) → (total (fds j) m' ≡ total (fds j) m) × (held w' j ≡ held w j))
  second_reads d = read_all-Harmless d (second_read k d) (second_read-Harmless d)
