-- ===== src/Vm/CacheMiss/Descriptors.antt =====
-- Which descriptors the process holds over the life of `CacheMiss`: none leaks, none is closed twice.
use libvsf.Prelude.{
  ℕ, ◌+◌, ◌-◌, ◌≡◌, refl, ap, ◌∙◌, sym, List, [], ◌∷◌, arith, Option-cases, inl, inr,
}
use libvsf.Prelude.Int.{pos}
use libvsf.Prelude.Double.{Double}
use libvsf.Container.Order.{nat_less, nat-IsOrder, same_iff}
use libvsf.Container.Map.{Map, find, put, keys, find-put}
use libvsf.Container.Set.{IsSorted}
use libvsf.Container.Map.Total.{total, weight, total-put, total-erase, put-IsSorted, erase-IsSorted}
use libvsf.Vm.CacheMiss.Kernel.{PerfKernel, HoldsDescriptors}
use libvsf.Vm.CacheMiss.Data.{CacheMissData, new_data}
use libvsf.Vm.CacheMiss.Sample.{
  CacheMiss, open_fd, clear_fd, start_one, start_all, stop_one, stop_all, start_sample, stop_sample,
  refresh, clear_all, clear,
}
use libvsf.Vm.CacheMiss.Accounts.{fds, held-open_fd, held-clear_fd}
use libvsf.Vm.CacheMiss.Reads.{first_reads, second_reads}

module _ (k : PerfKernel) (h : HoldsDescriptors k) (d : Double) (base : ℕ → ℕ) where
  open h use {held}

  -- The process holds what it held at first, `base`, and what the entries account for.
  abbrev pub Accounted : Map ℕ (CacheMissData d.F) → k.World → Type 0
  Accounted m w = IsSorted (keys m) × ((j : ℕ) → held w j ≡ base j + total (fds j) m)

  start_one-Accounted :
      (tid : ℕ) (m : Map ℕ (CacheMissData d.F)) (w : k.World)
      → Accounted m w
      → let (m', w') = start_one k d tid (m, w) in Accounted m' w'
  unfolding start_one
  start_one-Accounted tid m w (sorted, exact) =
      let new = new_data d (pos tid) in
      let m' = put tid new m in
      let c = (open_fd k d new w).1 in
      let sorted' = put-IsSorted nat-IsOrder tid new m sorted in
      (
        ground (
          arith,
          sorted,
          put-IsSorted nat-IsOrder tid c m' sorted',
          erase-IsSorted nat-IsOrder tid m' sorted',
        ),
        λ j. ground (
          arith,
          exact j,
          held-open_fd k h d new w j,
          total-put nat-IsOrder (fds j) tid new m sorted,
          total-put nat-IsOrder (fds j) tid c m' sorted',
          total-erase nat-IsOrder (fds j) tid m' sorted',
          find-put nat-IsOrder tid tid new m,
          same_iff nat-IsOrder tid tid,
        ),
      )

  start_all-Accounted :
      (tids : List ℕ) (m : Map ℕ (CacheMissData d.F)) (w : k.World)
      → Accounted m w
      → let (m', w') = start_all k d tids (m, w) in Accounted m' w'
  unfolding start_all
  start_all-Accounted [] m w ok = ok
  start_all-Accounted (tid ∷ tids) m w ok =
      let (m', w') = start_one k d tid (m, w) in
      start_all-Accounted tids m' w' (start_one-Accounted tid m w ok)

  stop_one-Accounted :
      (tid : ℕ) (m : Map ℕ (CacheMissData d.F)) (w : k.World)
      → Accounted m w
      → let (m', w') = stop_one k d tid (m, w) in Accounted m' w'
  unfolding stop_one
  stop_one-Accounted tid m w (sorted, exact) = elim (Option-cases (find tid m)) [
    | inl e ↦ rw (e, stop_one) (sorted, exact)
    | inr (c, e) ↦
        rw (e, stop_one)
          (
            erase-IsSorted nat-IsOrder tid m sorted,
            λ j.
                let whole = total-erase nat-IsOrder (fds j) tid m sorted in
                let own : weight (fds j) (find tid m) ≡ fds j c = ap (weight (fds j)) e in
                omega (arith, held-clear_fd k h d c w j, exact j, whole, own),
          )
  ]

  stop_all-Accounted :
      (tids : List ℕ) (m : Map ℕ (CacheMissData d.F)) (w : k.World)
      → Accounted m w
      → let (m', w') = stop_all k d tids (m, w) in Accounted m' w'
  unfolding stop_all
  stop_all-Accounted [] m w ok = ok
  stop_all-Accounted (tid ∷ tids) m w ok =
      let (m', w') = stop_one k d tid (m, w) in
      stop_all-Accounted tids m' w' (stop_one-Accounted tid m w ok)

  -- What keeps the keys, the descriptors and the kernel's table keeps the account.
  keep-Accounted :
      (m m' : Map ℕ (CacheMissData d.F)) (w w' : k.World)
      → (keys m' ≡ keys m)
        × ((j : ℕ) → (total (fds j) m' ≡ total (fds j) m) × (held w' j ≡ held w j))
      → Accounted m w
      → Accounted m' w'
  keep-Accounted m m' w w' (ks, same_all) (sorted, exact) =
      (rw ks sorted, λ j. let (t, r) = same_all j in r ∙ exact j ∙ ap (λ n. base j + n) (sym t))

  start_sample-Accounted :
      (s : CacheMiss d.F) (w : k.World)
      → Accounted s.cache_miss_data w
      → let (s', w') = start_sample k d s w in Accounted s'.cache_miss_data w'
  unfolding start_sample
  start_sample-Accounted s w ok =
      let (m1, w1) = start_all k d s.to_start_watching (s.cache_miss_data, w) in
      let (m2, w2) = stop_all k d s.to_stop_watching (m1, w1) in
      keep-Accounted m2 _ w2 _ (first_reads k h d m2 w2) (
        stop_all-Accounted s.to_stop_watching m1 w1
          (start_all-Accounted s.to_start_watching s.cache_miss_data w ok))

  stop_sample-Accounted :
      (s : CacheMiss d.F) (w : k.World)
      → Accounted s.cache_miss_data w
      → let (made, s', w') = stop_sample k d s w in Accounted s'.cache_miss_data w'
  unfolding stop_sample
  stop_sample-Accounted s w ok =
      keep-Accounted s.cache_miss_data _ w _ (second_reads k h d s.cache_miss_data w) ok

  held-clear_all :
      (m : Map ℕ (CacheMissData d.F)) (w : k.World) (j : ℕ)
      → held (clear_all k d m w) j ≡ held w j - total (fds j) m
  unfolding clear_all
  held-clear_all [] w j = omega arith
  held-clear_all ((tid, c) ∷ m) w j =
      omega (arith, held-clear_all m (clear_fd k d c w) j, held-clear_fd k h d c w j)

  -- A refresh keeps the account, whatever the queues are and whichever opens and reads fail, if
  -- nothing else changes the table of descriptors between the two samples. A clear gives back every
  -- descriptor: the process then holds what it held at first.
  pub refresh-Accounted :
      (sleep : k.World → k.World) (s : CacheMiss d.F) (w : k.World)
      → ((v : k.World) (j : ℕ) → held (sleep v) j ≡ held v j)
      → Accounted s.cache_miss_data w
      → (let (made, s', w') = refresh k d sleep s w in Accounted s'.cache_miss_data w')
        × (let (s', w') = clear k d s w in
            (s'.cache_miss_data ≡ []) × ((j : ℕ) → held w' j ≡ base j))
  unfolding refresh clear
  refresh-Accounted sleep s w quiet ok =
      let (s1, w1) = start_sample k d s w in
      (
        stop_sample-Accounted s1 (sleep w1) (
            keep-Accounted s1.cache_miss_data s1.cache_miss_data w1 (sleep w1)
              (refl, λ j. (refl, quiet w1 j)) (start_sample-Accounted s w ok)),
        (refl, λ j. omega (arith, held-clear_all s.cache_miss_data w j, ok.1 j)),
      )
