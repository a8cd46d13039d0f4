-- ===== src/Prelude/Double.antt =====
-- The type `double`: its arithmetic is that of the machine, so it is an interface. `to_int` is the
-- conversion to `int`.
use libvsf.Prelude.{ℕ}
use libvsf.Prelude.Int.{ℤ}

pub record Double : Type 1 where
  pub F : Type 0
  pub of_ℕ : ℕ → F
  pub minus_one : F
  pub sub : F → F → F
  pub mul : F → F → F
  pub div : F → F → F
  pub to_int : F → ℤ
