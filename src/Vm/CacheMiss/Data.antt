-- ===== src/Vm/CacheMiss/Data.antt =====
-- `CacheMissData` and `CacheMissData::PerfData` (cache_miss.h, cache_miss.cpp). Each operation takes the
-- object and the kernel's state, and returns both. A copy of a `PerfData` has the same descriptor.
use libvsf.Prelude.{ℕ, ◌-◌, Bool, true, false, Option, none, some, ltb, if◌then◌else◌, get_or}
use libvsf.Prelude.Int.{ℤ}
use libvsf.Prelude.Double.{Double}
use libvsf.Vm.CacheMiss.Kernel.{PerfKernel}

-- The hardware events, as linux/perf_event.h numbers them.
abbrev pub perf_count_hw_cpu_cycles : ℕ
perf_count_hw_cpu_cycles = 0

abbrev pub perf_count_hw_instructions : ℕ
perf_count_hw_instructions = 1

abbrev pub perf_count_hw_cache_references : ℕ
perf_count_hw_cache_references = 2

abbrev pub perf_count_hw_cache_misses : ℕ
perf_count_hw_cache_misses = 3

-- Of `attr_` only `config` varies.
pub record PerfData : Type 0 where
  pub config : ℕ
  pub count : ℕ
  pub fd : Option ℕ
  pub first_time : ℕ
  pub second_time : ℕ

abbrev pub new_perf : ℕ → PerfData
new_perf c = record { config = c; count = 0; fd = none; first_time = 0; second_time = 0 }

unfoldable pub clear_perf : PerfData → PerfData
clear_perf p = record p { count = 0; first_time = 0; second_time = 0 }

-- `count` from two readings.
unfoldable pub record_second : ℕ → PerfData → PerfData
record_second v p = record p {
  second_time = v;
  count = if ltb p.first_time v then v - p.first_time else 0;
}

module _ (k : PerfKernel) where
  open k use {World, perf_event_open, ioctl_reset, ioctl_enable, ioctl_disable, read, close}

  -- Both overloads of `open_fd`: without a leader of the group `dep` is `none`.
  unfoldable pub open_perf : ℤ → Option ℕ → PerfData → World → Bool × PerfData × World
  open_perf tid dep p w =
      let (fd, w') = perf_event_open p.config tid dep w in
      elim fd [
        | none ↦ (false, record p { fd = none }, w')
        | some f ↦ (true, record p { fd = some f }, ioctl_enable f (ioctl_reset f w'))
      ]

  unfoldable pub close_perf : PerfData → World → World
  close_perf p w = elim p.fd [ none ↦ w | some f ↦ close f (ioctl_disable f w) ]

  -- read(fd_, ...), which fails on a negative descriptor.
  unfoldable pub read_perf : PerfData → World → Option (Option ℕ) × World
  read_perf p w = elim p.fd [ none ↦ (none, w) | some f ↦ read f w ]

  -- What the two reads do with what `read` returns.
  abbrev pub note_first : PerfData → Option (Option ℕ) × World → Bool × PerfData × World
  note_first p (none, w) = (false, p, w)
  note_first p (some v, w) = (true, record p { first_time = get_or v p.first_time }, w)

  abbrev pub note_second : PerfData → Option (Option ℕ) × World → Bool × PerfData × World
  note_second p (none, w) = (false, p, w)
  note_second p (some v, w) = (true, record_second (get_or v p.second_time) p, w)

  unfoldable pub first_read_perf : PerfData → World → Bool × PerfData × World
  first_read_perf p w = note_first p (read_perf p w)

  unfoldable pub second_read_perf : PerfData → World → Bool × PerfData × World
  second_read_perf p w = note_second p (read_perf p w)

-- `F` is the type of the rates.
pub record CacheMissData (F : Type 0) : Type 0 where
  pub tid : ℤ
  pub mptc : F
  pub mpti : F
  pub mptr : F
  pub rpti : F
  pub cpi : F
  pub cache_misses : PerfData
  pub cpu_cycles : PerfData
  pub instructions : PerfData
  pub cache_references : PerfData

module _ (d : Double) where
  open d use {F, of_ℕ, mul, div}

  abbrev pub new_data : ℤ → CacheMissData F
  new_data t = record {
    tid = t;
    mptc = d.minus_one;
    mpti = d.minus_one;
    mptr = d.minus_one;
    rpti = d.minus_one;
    cpi = d.minus_one;
    cache_misses = new_perf perf_count_hw_cache_misses;
    cpu_cycles = new_perf perf_count_hw_cpu_cycles;
    instructions = new_perf perf_count_hw_instructions;
    cache_references = new_perf perf_count_hw_cache_references;
  }

  -- a * 1.0 / b, and that * 1000
  abbrev pub rate : ℕ → ℕ → F
  rate a b = div (mul (of_ℕ a) (of_ℕ 1)) (of_ℕ b)

  abbrev pub per_thousand : ℕ → ℕ → F
  per_thousand a b = mul (rate a b) (of_ℕ 1000)

  unfoldable pub update_miss_rate : CacheMissData F → CacheMissData F
  update_miss_rate c = record c {
    mptc = if ltb 0 cycles then per_thousand misses cycles else c.mptc;
    mptr = if ltb 0 references then per_thousand misses references else c.mptr;
    mpti = if ltb 0 executed then per_thousand misses executed else c.mpti;
    rpti = if ltb 0 executed then per_thousand references executed else c.rpti;
    cpi = if ltb 0 executed then rate cycles executed else c.cpi;
  }
    where
      misses : ℕ
      misses = c.cache_misses.count

      cycles : ℕ
      cycles = c.cpu_cycles.count

      executed : ℕ
      executed = c.instructions.count

      references : ℕ
      references = c.cache_references.count

module _ {F : Type 0} where
  unfoldable pub clear_data : CacheMissData F → CacheMissData F
  clear_data c = record c {
    cache_misses = clear_perf c.cache_misses;
    cpu_cycles = clear_perf c.cpu_cycles;
    instructions = clear_perf c.instructions;
    cache_references = clear_perf c.cache_references;
  }
