-- ===== src/Vm/VmId.antt =====
-- `VmId` and its comparisons (vm_base.h, vm_base.cpp). A virtual machine is known by the time at which
-- its process started, in seconds, and the process id. `difftime` of two such times is exact.
use libvsf.Prelude.{
  ℕ, ◌+◌, ◌-◌, ◌<◌, ◌≡◌, Bool, true, false, ◌&&◌, arith, ltb, leb, ◌==◌, if◌then◌else◌,
}
use libvsf.Container.Order.{Less, same}

pub record VmId : Type 0 where
  pub start_timestamp : ℕ
  pub pid : ℕ

-- `VmId()`, the id that stands for no machine.
abbrev pub no_vm : VmId
no_vm = record { start_timestamp = 0; pid = 0 }

-- abs(difftime(a, b)) <= 2
abbrev pub near : ℕ → ℕ → Bool
near a b = leb (a - b + (b - a)) 2

-- operator==
unfoldable pub vm_id_eq : VmId → VmId → Bool
vm_id_eq l r = near l.start_timestamp r.start_timestamp && l.pid == r.pid

-- operator<
unfoldable pub vm_id_lt : VmId → VmId → Bool
vm_id_lt l r =
    if near l.start_timestamp r.start_timestamp
    then ltb l.pid r.pid
    else ltb (r.start_timestamp + 2) l.start_timestamp

instance abbrev pub vm_id_less : Less VmId
vm_id_less = record { less = vm_id_lt }

-- Neither of two ids is less than the other exactly if they are equal by `==`; and never are both.
pub vm_id_lt_exclusive :
    (l r : VmId) → (same l r ≡ vm_id_eq l r) × ((vm_id_lt l r && vm_id_lt r l) ≡ false)
unfolding same vm_id_lt vm_id_eq
vm_id_lt_exclusive l r = (ground arith, ground arith)

-- The `<` of VmId is no order: three machines that start two seconds apart, with rising process ids,
-- are in a circle.
pub vm_id_lt_cycle :
    (t p q r : ℕ)
    → p < q
    → q < r
    → let a : VmId = record { start_timestamp = t; pid = p } in
      let b : VmId = record { start_timestamp = t + 2; pid = q } in
      let c : VmId = record { start_timestamp = t + 4; pid = r } in
      (vm_id_lt a b ≡ true) × (vm_id_lt b c ≡ true) × (vm_id_lt c a ≡ true)
unfolding vm_id_lt
vm_id_lt_cycle t p q r h k = (ground arith, ground arith, ground arith)
