-- ===== src/Utils/ParamVal/Laws.antt =====
-- The union of `OptionParamVal` is used soundly.
use libvsf.Prelude.{ℕ, ◌≡◌, List, [], arith}
use libvsf.Prelude.Int.{ℤ, pos}
use libvsf.Prelude.Exec.{ok}
use libvsf.Utils.ParamVal.{
  Member, sval, cval, ival, dval, pval, holding, copy_union, assign, assign_str, assign_scalar,
  get_string, get_char, get_int, get_double, get_pointer,
}

module _ {F : Type 0} where
  copy-holding : (m n : Member F) → assign (holding n) (holding m) ≡ (ok tt, holding n)
  unfolding assign copy_union
  copy-holding m n = ground arith

  string-holding :
      (m : Member F) (s : List ℕ) → assign_str s (holding m) ≡ (ok tt, holding (sval s))
  unfolding assign_str
  string-holding m s = ground arith

  -- Every assignment between values that hold something, of whatever types, goes without a fault and
  -- without a leak: the value then holds what was assigned, and its tag says so.
  pub assign-holding :
      (m n : Member F)
      → (assign (holding n) (holding m) ≡ (ok tt, holding n))
        × ((s : List ℕ) → assign_str s (holding m) ≡ (ok tt, holding (sval s)))
        × ((c : ℕ) → assign_scalar (cval c) (holding m) ≡ (ok tt, holding (cval c)))
        × ((i : ℤ) → assign_scalar (ival i) (holding m) ≡ (ok tt, holding (ival i)))
        × ((d : F) → assign_scalar (dval d) (holding m) ≡ (ok tt, holding (dval d)))
        × ((p : ℕ) → assign_scalar (pval p) (holding m) ≡ (ok tt, holding (pval p)))
  unfolding assign_scalar
  assign-holding m n = (
    copy-holding m n,
    λ s. string-holding m s,
    λ c. ground arith,
    λ i. ground arith,
    λ d. ground arith,
    λ p. ground arith,
  )

  -- What a getter gives of a value that holds something.
  abbrev pub string_of : Member F → List ℕ
  string_of (sval s) = s
  string_of _ = []

  abbrev pub char_of : Member F → ℕ
  char_of (cval c) = c
  char_of _ = 0

  abbrev pub int_of : Member F → ℤ
  int_of (ival i) = i
  int_of _ = pos 0

  abbrev pub pointer_of : Member F → ℕ
  pointer_of (pval p) = p
  pointer_of _ = 0

  abbrev pub double_of : F → Member F → F
  double_of z (dval d) = d
  double_of z _ = z

  -- After an assignment no getter faults: the one of the type assigned gives the value back, and each
  -- other one its default.
  pub get-assign :
      (m n : Member F) (z : F)
      → let v = (assign (holding n) (holding m)).1 in
        (get_string v ≡ ok (string_of n))
        × (get_char v ≡ ok (char_of n))
        × (get_int v ≡ ok (int_of n))
        × (get_double z v ≡ ok (double_of z n))
        × (get_pointer v ≡ ok (pointer_of n))
  unfolding get_string get_char get_int get_double get_pointer
  get-assign m n z =
      rw (copy-holding m n) (ground arith, ground arith, ground arith, ground arith, ground arith)
