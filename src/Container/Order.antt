-- ===== src/Container/Order.antt =====
-- The comparison that an ordered container uses, `operator<` of its key type.
use libvsf.Prelude.{ℕ, ◌≡◌, ◌↔◌, Bool, true, false, ◌&&◌, not, arith, ltb, Bool-cases, inl, inr}

pub record Less {ℓ} (K : Type ℓ) : Type ℓ where
  pub less : K → K → Bool

-- A strict total order, which the standard containers take for granted.
pub record IsOrder {ℓ} {K : Type ℓ} (o : Less K) : Type ℓ where
  pub irrefl : (a : K) → o.less a a ≡ false
  pub trans : (a b c : K) → o.less a b ≡ true → o.less b c ≡ true → o.less a c ≡ true
  pub connected : (a b : K) → o.less a b ≡ false → o.less b a ≡ false → a ≡ b

-- Two keys are the same key if neither is less than the other.
unfoldable pub same {ℓ} : {K : Type ℓ} ⦃o : Less K⦄ → K → K → Bool
same ⦃o⦄ a b = not (o.less a b) && not (o.less b a)

module _ {ℓ} {K : Type ℓ} ⦃o : Less K⦄ (laws : IsOrder o) where
  pub same_iff : (a b : K) → (same a b ≡ true) ↔ (a ≡ b)
  unfolding same
  same_iff a b = (λ h. ground (arith, laws.connected a b), λ e. ground (arith, laws.irrefl a, e))

  pub less_asym : (a b : K) → o.less a b ≡ true → o.less b a ≡ false
  less_asym a b h = elim (Bool-cases (o.less b a)) [
    | inl k ↦ ground (arith, laws.trans a b a h k, laws.irrefl a)
    | inr k ↦ k
  ]

instance abbrev pub nat_less : Less ℕ
nat_less = record { less = ltb }

pub nat-IsOrder : IsOrder nat_less
nat-IsOrder = record {
  irrefl = λ a. ground arith;
  trans = λ a b c h k. ground arith;
  connected = λ a b h k. ground arith;
}
