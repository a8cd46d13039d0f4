-- ===== src/Vm/CacheMiss/Kernel.antt =====
-- The calls of the kernel that `CacheMiss` makes (perf_event_open through utils/perf_event.cpp, ioctl,
-- read and close), as an interface, and what it relies on: which descriptors the process holds.
use libvsf.Prelude.{ℕ, ◌+◌, ◌-◌, ◌≡◌, Option, none, some, ◌==◌, if◌then◌else◌}
use libvsf.Prelude.Int.{ℤ}

-- A negative descriptor is `none`. A read gives `none` if it returns a negative number, `some none` if
-- it reads nothing and `some (some v)` if it reads a counter.
pub record PerfKernel : Type 1 where
  pub World : Type 0
  pub perf_event_open : ℕ → ℤ → Option ℕ → World → Option ℕ × World
  pub ioctl_reset : ℕ → World → World
  pub ioctl_enable : ℕ → World → World
  pub ioctl_disable : ℕ → World → World
  pub read : ℕ → World → Option (Option ℕ) × World
  pub close : ℕ → World → World

-- How often a field that holds `fd` counts for the descriptor `j`.
abbrev pub one : Option ℕ → ℕ → ℕ
one none j = 0
one (some f) j = if f == j then 1 else 0

-- A successful open adds one descriptor, a close takes away one, and no other call changes any.
pub record HoldsDescriptors (k : PerfKernel) : Type 1 where
  pub held : k.World → ℕ → ℕ
  pub held-open :
      (c : ℕ) (tid : ℤ) (g : Option ℕ) (w : k.World) (j : ℕ)
      → let (fd, w') = k.perf_event_open c tid g w in held w' j ≡ held w j + one fd j
  pub held-reset : (f : ℕ) (w : k.World) (j : ℕ) → held (k.ioctl_reset f w) j ≡ held w j
  pub held-enable : (f : ℕ) (w : k.World) (j : ℕ) → held (k.ioctl_enable f w) j ≡ held w j
  pub held-disable : (f : ℕ) (w : k.World) (j : ℕ) → held (k.ioctl_disable f w) j ≡ held w j
  pub held-read : (f : ℕ) (w : k.World) (j : ℕ) → held (k.read f w).1 j ≡ held w j
  pub held-close : (f : ℕ) (w : k.World) (j : ℕ) → held (k.close f w) j ≡ held w j - one (some f) j
