-- ===== src/Vm/CacheMiss/Accounts.antt =====
-- Which descriptors the entries of `CacheMiss` account for: none leaks, none is closed twice.
use libvsf.Prelude.{
  ℕ, ◌+◌, ◌-◌, ◌≡◌, ap, ◌∙◌, false, Option, none, some, arith, if◌then◌else◌, Option-cases, inl,
  inr,
}
use libvsf.Prelude.Int.{ℤ}
use libvsf.Prelude.Double.{Double}
use libvsf.Container.Order.{nat_less}
use libvsf.Vm.CacheMiss.Kernel.{PerfKernel, HoldsDescriptors, one}
use libvsf.Vm.CacheMiss.Data.{
  PerfData, open_perf, close_perf, CacheMissData, clear_data, clear_perf,
}
use libvsf.Vm.CacheMiss.Sample.{open_fd, clear_fd}

-- How often the four fields of an entry hold the descriptor.
abbrev pub fds : {F : Type 0} → ℕ → CacheMissData F → ℕ
fds j c =
    one c.cache_misses.fd j
    + one c.cpu_cycles.fd j
    + one c.instructions.fd j
    + one c.cache_references.fd j

module _ (k : PerfKernel) (h : HoldsDescriptors k) where
  open h use {held}

  held-open_perf :
      (tid : ℤ) (dep : Option ℕ) (p : PerfData) (w : k.World) (j : ℕ)
      → let (good, p', w') = open_perf k tid dep p w in
        (held w' j ≡ held w j + one p'.fd j) × (good ≡ false → one p'.fd j ≡ 0)
  unfolding open_perf
  held-open_perf tid dep p w j =
      let opened = h.held-open p.config tid dep w j in
      elim (Option-cases (k.perf_event_open p.config tid dep w).0) [
        | inl e ↦ ground (arith, opened)
        | inr (f, e) ↦ ground (
          arith,
          opened,
          h.held-enable f (k.ioctl_reset f (k.perf_event_open p.config tid dep w).1) j,
          h.held-reset f (k.perf_event_open p.config tid dep w).1 j,
        )
      ]

  held-close_perf :
      (p : PerfData) (w : k.World) (j : ℕ) → held (close_perf k p w) j ≡ held w j - one p.fd j
  unfolding close_perf
  held-close_perf p w j = elim (Option-cases p.fd) [
    | inl e ↦ rw e (omega arith)
    | inr (f, e) ↦ rw e (
        h.held-close f (k.ioctl_disable f w) j
        ∙ ap (λ n. n - one (some f) j) (h.held-disable f w j))
  ]

  pub held-open_fd :
      (d : Double) (c : CacheMissData d.F) (w : k.World) (j : ℕ)
      → let (good, c', w') = open_fd k d c w in
        held w' j ≡ held w j + (if good then fds j c' else 0)
  unfolding open_fd clear_data clear_perf
  held-open_fd d c w j =
      let t = c.tid in
      let (a, misses, w1) = open_perf k t none c.cache_misses w in
      let (b, cycles, w2) = open_perf k t misses.fd c.cpu_cycles w1 in
      let (e, executed, w3) = open_perf k t misses.fd c.instructions w2 in
      let (g, references, w4) = open_perf k t misses.fd c.cache_references w3 in
      ground (
        arith,
        held-open_perf t none c.cache_misses w j,
        held-open_perf t misses.fd c.cpu_cycles w1 j,
        held-open_perf t misses.fd c.instructions w2 j,
        held-open_perf t misses.fd c.cache_references w3 j,
        held-close_perf misses w2 j,
        held-close_perf misses w3 j,
        held-close_perf cycles (close_perf k misses w3) j,
        held-close_perf misses w4 j,
        held-close_perf cycles (close_perf k misses w4) j,
        held-close_perf executed (close_perf k cycles (close_perf k misses w4)) j,
      )

  pub held-clear_fd :
      (d : Double) (c : CacheMissData d.F) (w : k.World) (j : ℕ)
      → held (clear_fd k d c w) j ≡ held w j - fds j c
  unfolding clear_fd
  held-clear_fd d c w j =
      let w1 = close_perf k c.cache_misses w in
      let w2 = close_perf k c.cpu_cycles w1 in
      let w3 = close_perf k c.instructions w2 in
      ground (
        arith,
        held-close_perf c.cache_misses w j,
        held-close_perf c.cpu_cycles w1 j,
        held-close_perf c.instructions w2 j,
        held-close_perf c.cache_references w3 j,
      )
