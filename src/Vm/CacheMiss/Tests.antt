-- ===== src/Vm/CacheMiss/Tests.antt =====
-- A small kernel, which numbers its descriptors and reads a clock, and the theorems applied to it.
use libvsf.Prelude.{
  ℕ, ◌+◌, ◌-◌, ◌≡◌, refl, true, false, ◌||◌, none, some, List, [], ◌∷◌, arith, ◌==◌, if◌then◌else◌,
}
use libvsf.Prelude.Int.{pos}
use libvsf.Prelude.Double.{Double}
use libvsf.Container.Order.{nat_less}
use libvsf.Container.Map.{contains, find, keys}
use libvsf.Container.Set.{member}
use libvsf.Vm.CacheMiss.Kernel.{PerfKernel, HoldsDescriptors, one}
use libvsf.Vm.CacheMiss.Data.{new_perf, PerfData}
use libvsf.Vm.CacheMiss.Sample.{CacheMiss, init, set_callback, start_sample, refresh, clear}
use libvsf.Vm.CacheMiss.Descriptors.{Accounted, refresh-Accounted}
use libvsf.Vm.VmId.{no_vm, VmId}
use libvsf.Vm.VmCacheMiss as Vms
use libvsf.Vm.VmCacheMiss.{VmCacheMiss, Machine, tids_of}
use libvsf.Vm.VmCacheMiss.Tracking.{SamplesOnly, refresh-SamplesOnly}
use libvsf.Vm.CacheMiss.Watching.{contains-start_sample}

-- The clock and the open descriptors.
abbrev Table : Type 0
Table = ℕ × List ℕ

unfoldable count : ℕ → List ℕ → ℕ
count j [] = 0
count j (f ∷ fs) = (if f == j then 1 else 0) + count j fs

unfoldable remove : ℕ → List ℕ → List ℕ
remove f [] = []
remove f (g ∷ fs) = let rest = remove f fs in if f == g then fs else g ∷ rest

abbrev clock : PerfKernel
clock = record {
  World = Table;
  perf_event_open = λ c tid g w. (some w.0, (w.0 + 1, w.0 ∷ w.1));
  ioctl_reset = λ f w. w;
  ioctl_enable = λ f w. w;
  ioctl_disable = λ f w. w;
  read = λ f w. (some (some w.0), (w.0 + 1, w.1));
  close = λ f w. (w.0, remove f w.1);
}

count-remove : (f : ℕ) (fs : List ℕ) (j : ℕ) → count j (remove f fs) ≡ count j fs - one (some f) j
unfolding count remove
count-remove f [] j = ground arith
count-remove f (g ∷ fs) j = ground (arith, count-remove f fs j)

abbrev clock_table : HoldsDescriptors clock
unfolding count
clock_table = record {
  held = λ w j. count j w.1;
  held-open = λ c tid g w j. omega arith;
  held-reset = λ f w j. refl;
  held-enable = λ f w j. refl;
  held-disable = λ f w j. refl;
  held-read = λ f w j. refl;
  held-close = λ f w j. count-remove f w.1 j;
}

-- Rates in whole numbers.
abbrev whole : Double
whole = record {
  F = ℕ;
  of_ℕ = λ n. n;
  minus_one = 0;
  sub = λ a b. a - b;
  mul = λ a b. a + b;
  div = λ a b. a - b;
  to_int = pos;
}

abbrev asked : CacheMiss ℕ
asked = record {
  cache_miss_data = [];
  to_start_watching = 7 ∷ 9 ∷ [];
  to_stop_watching = 9 ∷ [];
  has_data = false;
  loop_interval_ms = 1000;
  sample_interval_us = 50000;
  callback_func = none;
}

abbrev at_start : Table
at_start = (100, 1 ∷ [])

abbrev first_held : ℕ → ℕ
first_held j = count j (1 ∷ [])

first-Accounted : Accounted clock clock_table whole first_held asked.cache_miss_data at_start
unfolding keys clock_table count
first-Accounted = (tt, λ j. omega arith)

refresh-Accounted_example :
    (let (made, s', w') = refresh clock whole (λ v. v) asked at_start in
      Accounted clock clock_table whole first_held s'.cache_miss_data w')
    × (let (s', w') = clear clock whole asked at_start in
        (s'.cache_miss_data ≡ []) × ((j : ℕ) → clock_table.held w' j ≡ first_held j))
refresh-Accounted_example =
    refresh-Accounted clock clock_table whole first_held (λ v. v) asked at_start (λ v j. refl)
      first-Accounted

contains-start_sample_example :
    let s' = (start_sample clock whole asked at_start).0 in
    (member 9 asked.to_stop_watching ≡ true → contains 9 s'.cache_miss_data ≡ false)
    × (contains 9 asked.cache_miss_data ≡ true
        → member 9 asked.to_stop_watching ≡ false
        → contains 9 s'.cache_miss_data ≡ true)
    × (contains 9 s'.cache_miss_data ≡ true
        → (contains 9 asked.cache_miss_data || member 9 asked.to_start_watching) ≡ true)
    × (s'.to_start_watching ≡ [])
contains-start_sample_example = contains-start_sample clock whole asked at_start 9

abbrev opened : PerfData
opened = record (new_perf 3) { fd = some 5 }

abbrev machine : Machine
machine = record {
  vm_id = record { start_timestamp = 100; pid = 7 };
  stable_vmthread_ids = 7 ∷ 8 ∷ [];
  volatile_vmthread_ids = 9 ∷ [];
}

abbrev sampler : VmCacheMiss ℕ
sampler = Vms.init init

abbrev stable_ids : ℕ → VmId
stable_ids tid = if tid == 8 then machine.vm_id else no_vm

sampler-SamplesOnly : SamplesOnly sampler
unfolding Vms.init init set_callback find
sampler-SamplesOnly = record { sorted = tt; no_start = refl; only = λ j. ground arith }

refresh-SamplesOnly_example :
    let (outs, v', w') =
      Vms.refresh whole clock stable_ids (λ w. w) (machine ∷ []) sampler at_start in
    SamplesOnly v' × (v'.last_tids ≡ tids_of (machine ∷ []) [])
refresh-SamplesOnly_example =
    refresh-SamplesOnly whole clock stable_ids (λ w. w) (machine ∷ []) sampler at_start
      sampler-SamplesOnly
