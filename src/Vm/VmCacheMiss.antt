-- ===== src/Vm/VmCacheMiss.antt =====
-- src/sysinfo/vm/dynamic/vm_cache_miss.cpp: cache misses by virtual machine. It has the singleton
-- `CacheMiss` sample the threads of the machines, and adds up what it measures. What `VmBase` returns
-- is an argument.
pub mod Tracking
use libvsf.Prelude.{
  ℕ, ◌+◌, Bool, true, false, Option, none, some, List, [], ◌∷◌, ◌==◌, if◌then◌else◌,
}
use libvsf.Prelude.Int.{ℤ, pos, pos_part, minus_one}
use libvsf.Prelude.Word.{u64}
use libvsf.Prelude.Double.{Double}
use libvsf.Container.Order.{nat_less}
use libvsf.Container.Map.{Map, find, put, index}
use libvsf.Container.Set.{Set, insert_all, set_difference}
use libvsf.Vm.VmId.{VmId, no_vm, vm_id_less}
use libvsf.Vm.CacheMiss.Kernel.{PerfKernel}
use libvsf.Vm.CacheMiss.Data.{PerfData, CacheMissData, new_data, update_miss_rate}
use libvsf.Vm.CacheMiss.Sample as Sample
use libvsf.Vm.CacheMiss.Sample.{CacheMiss, start_watching, stop_watching}

abbrev pub default_loop_interval_ms : ℕ
default_loop_interval_ms = 1000

pub record VmCacheMiss (F : Type 0) : Type 0 where
  pub vm_cache_miss_data : Map VmId (CacheMissData F)
  pub last_tids : Set ℕ
  pub volatile_vmthread_id_to_vm_id : Map ℕ VmId
  pub loop_interval_ms : ℕ
  pub callback_func : Option ℕ
  pub cache_miss : CacheMiss F

-- A machine with its stable and its volatile threads.
pub record Machine : Type 0 where
  pub vm_id : VmId
  pub stable_vmthread_ids : Set ℕ
  pub volatile_vmthread_ids : Set ℕ

-- The number of the static function `cal_vm_miss_rate`.
abbrev pub cal_vm_miss_rate_id : ℕ
cal_vm_miss_rate_id = 0

unfoldable pub tids_of : List Machine → Set ℕ → Set ℕ
tids_of [] tids = tids
tids_of (m ∷ ms) tids =
    tids_of ms (insert_all m.volatile_vmthread_ids (insert_all m.stable_vmthread_ids tids))

unfoldable pub put_each : List ℕ → VmId → Map ℕ VmId → Map ℕ VmId
put_each [] vm_id ids = ids
put_each (tid ∷ tids) vm_id ids = put_each tids vm_id (put tid vm_id ids)

unfoldable pub volatile_of : List Machine → Map ℕ VmId → Map ℕ VmId
volatile_of [] ids = ids
volatile_of (m ∷ ms) ids = volatile_of ms (put_each m.volatile_vmthread_ids m.vm_id ids)

module _ {F : Type 0} where
  unfoldable pub init : CacheMiss F → VmCacheMiss F
  init c = record {
    vm_cache_miss_data = [];
    last_tids = [];
    volatile_vmthread_id_to_vm_id = [];
    loop_interval_ms = default_loop_interval_ms;
    callback_func = none;
    cache_miss = Sample.set_callback (some cal_vm_miss_rate_id) c;
  }

  unfoldable pub set_loop_interval : ℕ → VmCacheMiss F → VmCacheMiss F
  set_loop_interval interval_ms v = record v { loop_interval_ms = interval_ms }

  unfoldable pub set_sample_interval : ℕ → VmCacheMiss F → VmCacheMiss F
  set_sample_interval interval_us v = record v {
    cache_miss = Sample.set_sample_interval interval_us v.cache_miss;
  }

  unfoldable pub set_callback : Option ℕ → VmCacheMiss F → VmCacheMiss F
  set_callback f v = record v { callback_func = f }

  unfoldable pub clear_param : VmCacheMiss F → VmCacheMiss F
  clear_param v = record v {
    cache_miss = Sample.set_callback (some cal_vm_miss_rate_id) (Sample.clear_param v.cache_miss);
    loop_interval_ms = default_loop_interval_ms;
    callback_func = none;
  }

  unfoldable pub start_watching_all : List ℕ → CacheMiss F → CacheMiss F
  start_watching_all [] c = c
  start_watching_all (tid ∷ tids) c = start_watching_all tids (start_watching tid c)

  unfoldable pub stop_watching_all : List ℕ → CacheMiss F → CacheMiss F
  stop_watching_all [] c = c
  stop_watching_all (tid ∷ tids) c = stop_watching_all tids (stop_watching tid c)

  -- The part of a refresh that runs under the lock.
  unfoldable pub queue_changes : List Machine → VmCacheMiss F → VmCacheMiss F
  queue_changes ms v = record v {
    vm_cache_miss_data = [];
    volatile_vmthread_id_to_vm_id = volatile_of ms v.volatile_vmthread_id_to_vm_id;
    last_tids = tids_of ms [];
    cache_miss =
        stop_watching_all (set_difference v.last_tids (tids_of ms []))
          (start_watching_all (set_difference (tids_of ms []) v.last_tids) v.cache_miss);
  }

-- The counts are of 64 bits.
unfoldable pub add_count : PerfData → PerfData → PerfData
add_count p q = record p { count = u64 (p.count + q.count) }

module _ (d : Double) where
  open d use {F}

  unfoldable pub add_counts : CacheMissData F → CacheMissData F → CacheMissData F
  add_counts measured c = record c {
    cache_misses = add_count c.cache_misses measured.cache_misses;
    cpu_cycles = add_count c.cpu_cycles measured.cpu_cycles;
    instructions = add_count c.instructions measured.instructions;
    cache_references = add_count c.cache_references measured.cache_references;
  }

  -- `VmBase::stable_vmthread_id_to_vm_id` is `stable`; no entry has a negative `tid`. The result is
  -- the call of the user's function, if there is one.
  unfoldable pub cal_vm_miss_rate :
      (ℕ → VmId) → CacheMissData F → VmCacheMiss F → List (ℕ × CacheMissData F) × VmCacheMiss F
  cal_vm_miss_rate stable measured v =
      let tid = pos_part measured.tid in
      let ids = v.volatile_vmthread_id_to_vm_id in
      let unknown = (stable tid).start_timestamp == 0 in
      let other = index tid no_vm ids in
      let v' =
        if unknown then record v { volatile_vmthread_id_to_vm_id = put tid other ids } else v in
      let vm_id = if unknown then other else stable tid in
      let old = index vm_id (new_data d minus_one) v.vm_cache_miss_data in
      if vm_id.start_timestamp == 0 then ([], v') else (
        elim v.callback_func [ none ↦ [] | some f ↦ (f, measured) ∷ [] ],
        record v' {
          vm_cache_miss_data =
              put vm_id (update_miss_rate d (add_counts measured old)) v.vm_cache_miss_data;
        },
      )

  unfoldable pub cal_each :
      (ℕ → VmId)
      → List (ℕ × CacheMissData F)
      → VmCacheMiss F
      → List (List (ℕ × CacheMissData F)) × VmCacheMiss F
  cal_each stable [] v = ([], v)
  cal_each stable ((f, measured) ∷ made) v =
      let (out, v') = cal_vm_miss_rate stable measured v in
      let (outs, v'') = cal_each stable made v' in (out ∷ outs, v'')

  module _ (k : PerfKernel) where
    open k use {World}

    unfoldable pub refresh :
        (ℕ → VmId)
        → (World → World)
        → List Machine
        → VmCacheMiss F
        → World
        → List (List (ℕ × CacheMissData F)) × VmCacheMiss F × World
    refresh stable sleep ms v w =
        let queued = queue_changes ms v in
        let (made, c, w') = Sample.refresh k d sleep queued.cache_miss w in
        let (outs, v') = cal_each stable made (record queued { cache_miss = c }) in (outs, v', w')

    unfoldable pub clear : VmCacheMiss F → World → VmCacheMiss F × World
    clear v w =
        let (c, w') = Sample.clear k d v.cache_miss w in
        (
          record v {
            cache_miss = c;
            vm_cache_miss_data = [];
            last_tids = [];
            volatile_vmthread_id_to_vm_id = [];
          },
          w',
        )

    -- `none` is a query that waits for the refreshing thread, which runs if the first argument says so.
    unfoldable pub get_cache_miss :
        Bool
        → (ℕ → VmId)
        → (World → World)
        → List Machine
        → VmId
        → VmCacheMiss F
        → World
        → Option (CacheMissData F) × VmCacheMiss F × World
    get_cache_miss joinable stable sleep ms vm_id v w =
        let (outs, v1, w1) = refresh stable sleep ms v w in
        let v' = if joinable then v else v1 in
        let w' = if joinable then w else w1 in
        (
          (if v'.cache_miss.has_data
              then some (index vm_id (new_data d (pos vm_id.pid)) v'.vm_cache_miss_data)
              else none),
          v',
          w',
        )

    unfoldable pub get_thread_cache_miss :
        Bool
        → (ℕ → VmId)
        → (World → World)
        → List Machine
        → ℕ
        → VmCacheMiss F
        → World
        → Option (CacheMissData F) × VmCacheMiss F × World
    get_thread_cache_miss joinable stable sleep ms vmthread_id v w =
        let (outs, v1, w1) = refresh stable sleep ms v w in
        let v' = if joinable then v else v1 in
        let w' = if joinable then w else w1 in
        (Sample.get_cache_miss_without_refresh k d vmthread_id v'.cache_miss, v', w')
