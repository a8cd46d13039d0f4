-- ===== src/Vm/CacheMiss/Sample.antt =====
-- `CacheMissData`'s four descriptors together, and `CacheMiss` itself (cache_miss.cpp).
use libvsf.Prelude.{ℕ, Bool, true, false, Option, none, some, List, [], ◌∷◌, ◌++◌, if◌then◌else◌}
use libvsf.Prelude.Int.{pos}
use libvsf.Prelude.Double.{Double}
use libvsf.Container.Order.{nat_less}
use libvsf.Container.Map.{Map, find, contains, put, erase}
use libvsf.Vm.CacheMiss.Kernel.{PerfKernel}
use libvsf.Vm.CacheMiss.Data.{
  PerfData, open_perf, close_perf, first_read_perf, second_read_perf, CacheMissData, new_data,
  update_miss_rate, clear_data,
}

abbrev pub default_loop_interval_ms : ℕ
default_loop_interval_ms = 1000

-- In microseconds.
abbrev pub default_sample_interval_ms : ℕ
default_sample_interval_ms = 50000

pub record CacheMiss (F : Type 0) : Type 0 where
  pub cache_miss_data : Map ℕ (CacheMissData F)
  pub to_start_watching : List ℕ
  pub to_stop_watching : List ℕ
  pub has_data : Bool
  pub loop_interval_ms : ℕ
  pub sample_interval_us : ℕ
  pub callback_func : Option ℕ

module _ {F : Type 0} where
  unfoldable pub init : CacheMiss F
  init = record {
    cache_miss_data = [];
    to_start_watching = [];
    to_stop_watching = [];
    has_data = false;
    loop_interval_ms = default_loop_interval_ms;
    sample_interval_us = default_sample_interval_ms;
    callback_func = none;
  }

  unfoldable pub set_loop_interval : ℕ → CacheMiss F → CacheMiss F
  set_loop_interval interval_ms s = record s { loop_interval_ms = interval_ms }

  unfoldable pub set_sample_interval : ℕ → CacheMiss F → CacheMiss F
  set_sample_interval interval_us s = record s { sample_interval_us = interval_us }

  unfoldable pub set_callback : Option ℕ → CacheMiss F → CacheMiss F
  set_callback f s = record s { callback_func = f }

  unfoldable pub clear_param : CacheMiss F → CacheMiss F
  clear_param s = record s {
    loop_interval_ms = default_loop_interval_ms;
    sample_interval_us = default_sample_interval_ms;
    callback_func = none;
  }

  unfoldable pub start_watching : ℕ → CacheMiss F → CacheMiss F
  start_watching tid s = record s { to_start_watching = s.to_start_watching ++ tid ∷ [] }

  unfoldable pub stop_watching : ℕ → CacheMiss F → CacheMiss F
  stop_watching tid s = record s { to_stop_watching = s.to_stop_watching ++ tid ∷ [] }

  -- The loop that calls the callback with each entry; a call is the number of the callback and the
  -- data that it is given.
  unfoldable pub calls : Option ℕ → Map ℕ (CacheMissData F) → List (ℕ × CacheMissData F)
  calls none m = []
  calls (some f) [] = []
  calls (some f) ((tid, c) ∷ m) = (f, c) ∷ calls (some f) m

module _ (k : PerfKernel) (d : Double) where
  open k use {World}
  open d use {F}

  -- `CacheMissData::open_fd`: the first event leads the group; what is open is closed if one fails.
  unfoldable pub open_fd : CacheMissData F → World → Bool × CacheMissData F × World
  open_fd c w =
      let (a, misses, w1) = open_perf k c.tid none c.cache_misses w in
      let c1 = record c { cache_misses = misses } in
      let (b, cycles, w2) = open_perf k c.tid misses.fd c.cpu_cycles w1 in
      let c2 = record c1 { cpu_cycles = cycles } in
      let (e, executed, w3) = open_perf k c.tid misses.fd c.instructions w2 in
      let c3 = record c2 { instructions = executed } in
      let (g, references, w4) = open_perf k c.tid misses.fd c.cache_references w3 in
      let c4 = record c3 { cache_references = references } in
      elim a [
        | false ↦ (false, c1, w1)
        | true ↦ elim b [
          | false ↦ (false, clear_data c2, close_perf k misses w2)
          | true ↦ elim e [
            | false ↦ (false, clear_data c3, close_perf k cycles (close_perf k misses w3))
            | true ↦ elim g [
              | false ↦ (
                false,
                clear_data c4,
                close_perf k executed (close_perf k cycles (close_perf k misses w4)),
              )
              | true ↦ (true, c4, w4)
            ]
          ]
        ]
      ]

  -- `CacheMissData::first_read` and `second_read`: four reads up to the first that fails.
  unfoldable pub read_each :
      (PerfData → World → Bool × PerfData × World)
      → CacheMissData F
      → World
      → Bool × CacheMissData F × World
  read_each one_read c w =
      let (a, misses, w1) = one_read c.cache_misses w in
      let c1 = record c { cache_misses = misses } in
      let (b, cycles, w2) = one_read c.cpu_cycles w1 in
      let c2 = record c1 { cpu_cycles = cycles } in
      let (e, executed, w3) = one_read c.instructions w2 in
      let c3 = record c2 { instructions = executed } in
      let (g, references, w4) = one_read c.cache_references w3 in
      let c4 = record c3 { cache_references = references } in
      elim a [
        | false ↦ (false, clear_data c1, w1)
        | true ↦ elim b [
          | false ↦ (false, clear_data c2, w2)
          | true ↦ elim e [
            | false ↦ (false, clear_data c3, w3)
            | true ↦ elim g [ false ↦ (false, clear_data c4, w4) | true ↦ (true, c4, w4) ]
          ]
        ]
      ]

  abbrev pub first_read : CacheMissData F → World → Bool × CacheMissData F × World
  first_read = read_each (first_read_perf k)

  abbrev pub second_read : CacheMissData F → World → Bool × CacheMissData F × World
  second_read c w =
      let (good, c', w') = read_each (second_read_perf k) c w in
      (good, (if good then update_miss_rate d c' else c'), w')

  unfoldable pub clear_fd : CacheMissData F → World → World
  clear_fd c w =
      close_perf k c.cache_references
        (close_perf k c.instructions (close_perf k c.cpu_cycles (close_perf k c.cache_misses w)))

  abbrev pub Watched : Type 0
  Watched = Map ℕ (CacheMissData F) × World

  -- One round of the loop over `to_start_watching_`.
  unfoldable pub start_one : ℕ → Watched → Watched
  start_one tid (m, w) =
      let m' = put tid (new_data d (pos tid)) m in
      let (good, c, w') = open_fd (new_data d (pos tid)) w in
      if contains tid m then (m, w) else if good then (put tid c m', w') else (erase tid m', w')

  unfoldable pub start_all : List ℕ → Watched → Watched
  start_all [] p = p
  start_all (tid ∷ tids) p = start_all tids (start_one tid p)

  -- One round of the loop over `to_stop_watching_`.
  unfoldable pub stop_one : ℕ → Watched → Watched
  stop_one tid (m, w) = elim (find tid m) [ none ↦ (m, w) | some c ↦ (erase tid m, clear_fd c w) ]

  unfoldable pub stop_all : List ℕ → Watched → Watched
  stop_all [] p = p
  stop_all (tid ∷ tids) p = stop_all tids (stop_one tid p)

  -- The loops that read each entry; the threads whose read fails are to be stopped.
  unfoldable pub read_all :
      (CacheMissData F → World → Bool × CacheMissData F × World)
      → Map ℕ (CacheMissData F)
      → World
      → List ℕ × Map ℕ (CacheMissData F) × World
  read_all one_read [] w = ([], [], w)
  read_all one_read ((tid, c) ∷ m) w =
      let (good, c', w') = one_read c w in
      let (failed, m', w'') = read_all one_read m w' in
      ((if good then failed else tid ∷ failed), (tid, c') ∷ m', w'')

  unfoldable pub start_sample : CacheMiss F → World → CacheMiss F × World
  start_sample s w =
      let (m, w') =
        stop_all s.to_stop_watching (start_all s.to_start_watching (s.cache_miss_data, w)) in
      let (failed, m', w'') = read_all first_read m w' in
      (record s { cache_miss_data = m'; to_start_watching = []; to_stop_watching = failed }, w'')

  unfoldable pub stop_sample :
      CacheMiss F → World → List (ℕ × CacheMissData F) × CacheMiss F × World
  stop_sample s w =
      let (failed, m, w') = read_all second_read s.cache_miss_data w in
      (
        calls s.callback_func m,
        record s { cache_miss_data = m; to_stop_watching = s.to_stop_watching ++ failed },
        w',
      )

  -- The kernel goes on counting between the two samples: `sleep` is what happens meanwhile.
  unfoldable pub refresh :
      (World → World) → CacheMiss F → World → List (ℕ × CacheMissData F) × CacheMiss F × World
  refresh sleep s w =
      let (s', w') = start_sample s w in
      let (made, s'', w'') = stop_sample s' (sleep w') in
      (made, record s'' { has_data = true }, w'')

  unfoldable pub clear_all : Map ℕ (CacheMissData F) → World → World
  clear_all [] w = w
  clear_all ((tid, c) ∷ m) w = clear_all m (clear_fd c w)

  unfoldable pub clear : CacheMiss F → World → CacheMiss F × World
  clear s w = (
    record s {
      cache_miss_data = [];
      to_start_watching = [];
      to_stop_watching = [];
      has_data = false;
    },
    clear_all s.cache_miss_data w,
  )

  -- `none` is a query that waits for the refreshing thread.
  unfoldable pub get_cache_miss_without_refresh : ℕ → CacheMiss F → Option (CacheMissData F)
  get_cache_miss_without_refresh tid s =
      if s.has_data
      then some (elim (find tid s.cache_miss_data) [ none ↦ new_data d (pos tid) | some c ↦ c ])
      else none

  unfoldable pub get_cache_miss :
      Bool
      → (World → World)
      → ℕ
      → CacheMiss F
      → World
      → Option (CacheMissData F) × CacheMiss F × World
  get_cache_miss true sleep tid s w = (get_cache_miss_without_refresh tid s, s, w)
  get_cache_miss false sleep tid s w =
      let (made, s', w') = refresh sleep s w in (get_cache_miss_without_refresh tid s', s', w')
