-- ===== src/Vm/VmCacheMiss/Tracking.antt =====
-- What the singleton `CacheMiss` samples are threads of the machines.
use libvsf.Prelude.{ℕ, ◌≡◌, refl, sym, ◌∙◌, ap, true, ◌||◌, List, [], ◌∷◌, ◌++◌, arith}
use mathlib.Core.List.{append_assoc, append-nil}
use libvsf.Prelude.Double.{Double}
use libvsf.Container.Order.{nat_less, nat-IsOrder}
use libvsf.Container.Map.{contains}
use libvsf.Container.Set.{Set, member, set_difference, IsSorted}
use libvsf.Container.Set.Laws.{insert_all-IsSorted, member-set_difference}
use libvsf.Vm.VmId.{VmId}
use libvsf.Vm.CacheMiss.Kernel.{PerfKernel}
use libvsf.Vm.CacheMiss.Data.{CacheMissData}
use libvsf.Vm.CacheMiss.Sample as Sample
use libvsf.Vm.CacheMiss.Sample.{
  CacheMiss, start_watching, stop_watching, stop_sample, start_sample, second_read,
}
use libvsf.Vm.CacheMiss.Watching.{contains-start_sample, contains-refresh}
use libvsf.Vm.VmCacheMiss.{
  VmCacheMiss, Machine, tids_of, start_watching_all, stop_watching_all, queue_changes,
  cal_vm_miss_rate, cal_each, refresh,
}

tids_of-IsSorted : (ms : List Machine) (s : Set ℕ) → IsSorted s → IsSorted (tids_of ms s)
unfolding tids_of
tids_of-IsSorted [] s h = h
tids_of-IsSorted (m ∷ ms) s h = tids_of-IsSorted ms _ (
    insert_all-IsSorted nat-IsOrder m.volatile_vmthread_ids _
      (insert_all-IsSorted nat-IsOrder m.stable_vmthread_ids s h))

member-append : (j : ℕ) (xs ys : List ℕ) → member j (xs ++ ys) ≡ (member j xs || member j ys)
unfolding member
member-append j [] ys = refl
member-append j (x ∷ xs) ys = ground (arith, member-append j xs ys)

module _ {F : Type 0} where
  abbrev with_start : CacheMiss F → List ℕ → CacheMiss F
  with_start c tids = record c { to_start_watching = tids }

  abbrev with_stop : CacheMiss F → List ℕ → CacheMiss F
  with_stop c tids = record c { to_stop_watching = tids }

  start_watching_all-append :
      (tids : List ℕ) (c : CacheMiss F)
      → start_watching_all tids c ≡ with_start c (c.to_start_watching ++ tids)
  unfolding start_watching_all start_watching
  start_watching_all-append [] c = ap (with_start c) (sym (append-nil c.to_start_watching))
  start_watching_all-append (tid ∷ tids) c =
      start_watching_all-append tids (start_watching tid c)
      ∙ ap (with_start c) (append_assoc c.to_start_watching (tid ∷ []) tids)

  stop_watching_all-append :
      (tids : List ℕ) (c : CacheMiss F)
      → stop_watching_all tids c ≡ with_stop c (c.to_stop_watching ++ tids)
  unfolding stop_watching_all stop_watching
  stop_watching_all-append [] c = ap (with_stop c) (sym (append-nil c.to_stop_watching))
  stop_watching_all-append (tid ∷ tids) c =
      stop_watching_all-append tids (stop_watching tid c)
      ∙ ap (with_stop c) (append_assoc c.to_stop_watching (tid ∷ []) tids)

  -- Each entry of the singleton is for a thread of the last refresh, and none is to be started.
  pub record SamplesOnly (v : VmCacheMiss F) : Type 0 where
    pub sorted : IsSorted v.last_tids
    pub no_start : v.cache_miss.to_start_watching ≡ []
    pub only :
        (j : ℕ) → contains j v.cache_miss.cache_miss_data ≡ true → member j v.last_tids ≡ true

  abbrev queues : List Machine → VmCacheMiss F → CacheMiss F
  queues ms v = record v.cache_miss {
    to_start_watching =
        v.cache_miss.to_start_watching ++ set_difference (tids_of ms []) v.last_tids;
    to_stop_watching = v.cache_miss.to_stop_watching ++ set_difference v.last_tids (tids_of ms []);
  }

  queued : (ms : List Machine) (v : VmCacheMiss F) → (queue_changes ms v).cache_miss ≡ queues ms v
  unfolding queue_changes
  queued ms v = rw (stop_watching_all-append, start_watching_all-append) refl

module _ (d : Double) where
  cal_vm_miss_rate-keeps :
      (stable : ℕ → VmId) (c : CacheMissData d.F) (v : VmCacheMiss d.F)
      → let v' = (cal_vm_miss_rate d stable c v).1 in
        (v'.cache_miss ≡ v.cache_miss) × (v'.last_tids ≡ v.last_tids)
  unfolding cal_vm_miss_rate
  cal_vm_miss_rate-keeps stable c v = (ground arith, ground arith)

  cal_each-keeps :
      (stable : ℕ → VmId) (made : List (ℕ × CacheMissData d.F)) (v : VmCacheMiss d.F)
      → let v' = (cal_each d stable made v).1 in
        (v'.cache_miss ≡ v.cache_miss) × (v'.last_tids ≡ v.last_tids)
  unfolding cal_each
  cal_each-keeps stable [] v = (refl, refl)
  cal_each-keeps stable ((f, c) ∷ made) v =
      let v' = (cal_vm_miss_rate d stable c v).1 in
      let (a, b) = cal_each-keeps stable made v' in
      let (a', b') = cal_vm_miss_rate-keeps stable c v in (a ∙ a', b ∙ b')

  chosen :
      (k : PerfKernel) (ms : List Machine) (v : VmCacheMiss d.F) (w : k.World) (j : ℕ)
      → SamplesOnly v
      → contains j (start_sample k d (queue_changes ms v).cache_miss w).0.cache_miss_data ≡ true
      → member j (tids_of ms []) ≡ true
  chosen k ms v w j h = rw (queued ms v) (λ e. ground (
    arith,
    e,
    h.only j,
    h.no_start,
    contains-start_sample k d (queues ms v) w j,
    member-append j v.cache_miss.to_stop_watching (set_difference v.last_tids (tids_of ms [])),
    member-append j v.cache_miss.to_start_watching (set_difference (tids_of ms []) v.last_tids),
    member-set_difference nat-IsOrder j (tids_of ms []) v.last_tids (tids_of-IsSorted ms [] tt)
        h.sorted,
    member-set_difference nat-IsOrder j v.last_tids (tids_of ms []) h.sorted
        (tids_of-IsSorted ms [] tt),
  ))

  -- Every refresh leaves `CacheMiss` with entries for threads of the machines it was given only,
  -- whatever opens and reads fail. The threads of a machine that is gone are dropped.
  pub refresh-SamplesOnly :
      (k : PerfKernel) (stable : ℕ → VmId) (sleep : k.World → k.World) (ms : List Machine)
      (v : VmCacheMiss d.F) (w : k.World)
      → SamplesOnly v
      → let (outs, v', w') = refresh d k stable sleep ms v w in
        SamplesOnly v' × (v'.last_tids ≡ tids_of ms [])
  unfolding refresh
  refresh-SamplesOnly k stable sleep ms v w h =
      let c = (queue_changes ms v).cache_miss in
      let (made, c', w') = Sample.refresh k d sleep c w in
      let v1 : VmCacheMiss d.F = record (queue_changes ms v) { cache_miss = c' } in
      let (kept, same_tids) = cal_each-keeps stable made v1 in
      let tids : (cal_each d stable made v1).1.last_tids ≡ tids_of ms [] =
        same_tids ∙ (unfold queue_changes in refl) in
      (
        record {
          sorted = rw tids (tids_of-IsSorted ms [] tt);
          no_start =
              ap (λ u. u.to_start_watching) kept
              ∙ (contains-refresh k d sleep c w 0).1
              ∙ (contains-start_sample k d c w 0).3;
          only = λ j e.
              ap (member j) tids
              ∙ chosen k ms v w j h (
                  sym (contains-refresh k d sleep c w j).0
                  ∙ sym (ap (λ u. contains j u.cache_miss_data) kept)
                  ∙ e);
        },
        tids,
      )
