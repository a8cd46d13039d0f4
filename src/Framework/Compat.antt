-- ===== src/Framework/Compat.antt =====
-- src/framework/compat.cpp: checks of the system, each of which is made once.
use libvsf.Prelude.{ℕ, Bool, true, none, some, ltb, if◌then◌else◌}
use libvsf.Prelude.Exec.{Result, ok, err, compat_check_failed, Exec}
use libvsf.Container.Order.{Less}
use libvsf.Container.Map.{Map, find, put}

pub data CompatItem : Type 0 where
  ubuntu kernel_3_8_0_later : CompatItem

abbrev pub item_value : CompatItem → ℕ
item_value ubuntu = 0
item_value kernel_3_8_0_later = 1

instance abbrev pub item_less : Less CompatItem
item_less = record { less = λ a b. ltb (item_value a) (item_value b) }

pub record Compat : Type 0 where
  pub check_res : Map CompatItem Bool

abbrev pub throw_unless : Bool → Compat → Result (Unit {0}) × Compat
throw_unless res s = if res then (ok tt, s) else (err compat_check_failed, s)

-- `check_func` is what the check would return now.
unfoldable pub do_compat_checking : CompatItem → Bool → Exec Compat (Unit {0})
do_compat_checking ci check_func s = elim (find ci s.check_res) [
  | none ↦ throw_unless check_func (record { check_res = put ci check_func s.check_res })
  | some res ↦ throw_unless res s
]

-- The two checks of the program: both accept every system.
abbrev pub check_of : CompatItem → Bool
check_of ubuntu = true
check_of kernel_3_8_0_later = true

unfoldable pub compat_checking : CompatItem → Exec Compat (Unit {0})
compat_checking ci = do_compat_checking ci (check_of ci)
