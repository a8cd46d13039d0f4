-- ===== src/Vm/CacheMiss/Watching.antt =====
-- Which threads `CacheMiss` samples (`CacheMiss::start_sample`).
use libvsf.Prelude.{
  ℕ, ◌≡◌, refl, ap, ◌∙◌, sym, Bool, true, false, ◌&&◌, ◌||◌, not, List, [], ◌∷◌, arith,
}
use libvsf.Prelude.Int.{pos}
use libvsf.Prelude.Double.{Double}
use libvsf.Container.Order.{nat_less, nat-IsOrder, same, same_iff}
use libvsf.Container.Map.{Map, contains, put, keys, find-put, find-erase, member-keys}
use libvsf.Container.Set.{member}
use libvsf.Vm.CacheMiss.Kernel.{PerfKernel}
use libvsf.Vm.CacheMiss.Data.{CacheMissData, new_data}
use libvsf.Vm.CacheMiss.Sample.{
  CacheMiss, open_fd, first_read, start_one, start_all, stop_one, stop_all, read_all, start_sample,
  stop_sample, second_read, refresh,
}

module _ (k : PerfKernel) (d : Double) where
  contains-start_one :
      (tid j : ℕ) (m : Map ℕ (CacheMissData d.F)) (w : k.World)
      → let opened = (open_fd k d (new_data d (pos tid)) w).0 in
        contains j (start_one k d tid (m, w)).0 ≡ (contains j m || (same tid j && opened))
  unfolding start_one
  contains-start_one tid j m w =
      let new = new_data d (pos tid) in
      let c = (open_fd k d new w).1 in
      ground (
        arith,
        find-put nat-IsOrder tid j new m,
        find-put nat-IsOrder tid j c (put tid new m),
        find-erase nat-IsOrder tid j (put tid new m),
        same_iff nat-IsOrder tid j,
      )

  -- The set only grows in the first loop, and by no thread that is not to be started.
  contains-start_all :
      (tids : List ℕ) (j : ℕ) (m : Map ℕ (CacheMissData d.F)) (w : k.World)
      → let m' = (start_all k d tids (m, w)).0 in
        (contains j m ≡ true → contains j m' ≡ true)
        × (contains j m' ≡ true → (contains j m || member j tids) ≡ true)
  unfolding start_all member
  contains-start_all [] j m w = ground arith
  contains-start_all (tid ∷ tids) j m w =
      let (m', w') = start_one k d tid (m, w) in
      ground (
        arith,
        contains-start_all tids j m' w',
        contains-start_one tid j m w,
        same_iff nat-IsOrder tid j,
        same_iff nat-IsOrder j tid,
      )

  contains-stop_one :
      (tid j : ℕ) (m : Map ℕ (CacheMissData d.F)) (w : k.World)
      → contains j (stop_one k d tid (m, w)).0 ≡ (not (same tid j) && contains j m)
  unfolding stop_one
  contains-stop_one tid j m w =
      ground (arith, find-erase nat-IsOrder tid j m, same_iff nat-IsOrder tid j)

  contains-stop_all :
      (tids : List ℕ) (j : ℕ) (m : Map ℕ (CacheMissData d.F)) (w : k.World)
      → contains j (stop_all k d tids (m, w)).0 ≡ (not (member j tids) && contains j m)
  unfolding stop_all member
  contains-stop_all [] j m w = ground arith
  contains-stop_all (tid ∷ tids) j m w =
      let (m', w') = stop_one k d tid (m, w) in
      ground (
        arith,
        contains-stop_all tids j m' w',
        contains-stop_one tid j m w,
        same_iff nat-IsOrder tid j,
        same_iff nat-IsOrder j tid,
      )

  keys-read_all :
      (one_read : CacheMissData d.F → k.World → Bool × CacheMissData d.F × k.World)
      (m : Map ℕ (CacheMissData d.F)) (w : k.World)
      → keys (read_all k d one_read m w).1 ≡ keys m
  unfolding read_all keys
  keys-read_all one_read [] w = refl
  keys-read_all one_read ((tid, c) ∷ m) w =
      ap (λ ks. tid ∷ ks) (keys-read_all one_read m (one_read c w).2)

  contains-read_all :
      (one_read : CacheMissData d.F → k.World → Bool × CacheMissData d.F × k.World)
      (m : Map ℕ (CacheMissData d.F)) (w : k.World) (j : ℕ)
      → contains j (read_all k d one_read m w).1 ≡ contains j m
  contains-read_all one_read m w j =
      sym (member-keys nat-IsOrder j (read_all k d one_read m w).1)
      ∙ ap (member j) (keys-read_all one_read m w)
      ∙ member-keys nat-IsOrder j m

  -- A sample begins by taking over the queues: a thread that is to be stopped is dropped, one that has
  -- an entry and is not to be stopped keeps it, and a new entry is one that was to be started. The
  -- queue of those to start is empty then.
  pub contains-start_sample :
      (s : CacheMiss d.F) (w : k.World) (j : ℕ)
      → let s' = (start_sample k d s w).0 in
        (member j s.to_stop_watching ≡ true → contains j s'.cache_miss_data ≡ false)
        × (contains j s.cache_miss_data ≡ true
            → member j s.to_stop_watching ≡ false
            → contains j s'.cache_miss_data ≡ true)
        × (contains j s'.cache_miss_data ≡ true
            → (contains j s.cache_miss_data || member j s.to_start_watching) ≡ true)
        × (s'.to_start_watching ≡ [])
  unfolding start_sample
  contains-start_sample s w j =
      let (m1, w1) = start_all k d s.to_start_watching (s.cache_miss_data, w) in
      let (m2, w2) = stop_all k d s.to_stop_watching (m1, w1) in
      let (grows, only) = contains-start_all s.to_start_watching j s.cache_miss_data w in
      let stopped = contains-stop_all s.to_stop_watching j m1 w1 in
      let kept = contains-read_all (first_read k d) m2 w2 j in
      (
        λ e. kept ∙ ground (arith, stopped),
        λ e f. kept ∙ ground (arith, stopped, grows),
        λ e. ground (arith, stopped, only, kept),
        refl,
      )

  -- A refresh samples the threads that its start has chosen.
  pub contains-refresh :
      (sleep : k.World → k.World) (s : CacheMiss d.F) (w : k.World) (j : ℕ)
      → let s' = (refresh k d sleep s w).1 in
        (contains j s'.cache_miss_data ≡ contains j (start_sample k d s w).0.cache_miss_data)
        × (s'.to_start_watching ≡ (start_sample k d s w).0.to_start_watching)
  unfolding refresh stop_sample
  contains-refresh sleep s w j =
      let (s1, w1) = start_sample k d s w in
      (contains-read_all (second_read k d) s1.cache_miss_data (sleep w1) j, refl)
