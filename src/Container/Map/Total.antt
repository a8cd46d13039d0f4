-- ===== src/Container/Map/Total.antt =====
-- A quantity summed over the values of a map, under the operations of the map.
use libvsf.Prelude.{ℕ, ◌+◌, ◌≡◌, refl, Option, none, some, [], ◌∷◌, arith, inl, inr, Bool-cases}
use libvsf.Container.Order.{Less, IsOrder, same, same_iff}
use libvsf.Container.Map.{Map, find, put, erase, keys}
use libvsf.Container.Set.{insert, Above, IsSorted}
use libvsf.Container.Set.Laws.{insert-IsSorted, Above-trans, Above-IsSorted}

module _ {ℓ κ} {K : Type ℓ} {V : Type κ} ⦃o : Less K⦄ where
  pub keys-put : (k : K) (v : V) (m : Map K V) → keys (put k v m) ≡ insert k (keys m)
  unfolding keys put insert
  keys-put k v [] = refl
  keys-put k v ((i, w) ∷ m) = ground (arith, keys-put k v m)

  -- The sum, and the part of one entry in it.
  abbrev pub total : (V → ℕ) → Map K V → ℕ
  total f [] = 0
  total f ((i, v) ∷ m) = f v + total f m

abbrev pub weight {κ} : {V : Type κ} → (V → ℕ) → Option V → ℕ
weight f none = 0
weight f (some v) = f v

module _ {ℓ κ} {K : Type ℓ} {V : Type κ} ⦃o : Less K⦄ (laws : IsOrder o) where
  pub put-IsSorted : (k : K) (v : V) (m : Map K V) → IsSorted (keys m) → IsSorted (keys (put k v m))
  put-IsSorted k v m h = rw (keys-put k v m) (insert-IsSorted laws k (keys m) h)

  Above-erase : (a k : K) (m : Map K V) → Above a (keys m) → Above a (keys (erase k m))
  unfolding keys erase
  Above-erase a k [] h = tt
  Above-erase a k ((i, w) ∷ m) h = elim (Bool-cases (same k i)) [
    | inl e ↦ rw e (Above-erase a k m (Above-trans laws a i (keys m) h.0 h.1))
    | inr e ↦ rw e (h.0, Above-erase i k m h.1)
  ]

  pub erase-IsSorted : (k : K) (m : Map K V) → IsSorted (keys m) → IsSorted (keys (erase k m))
  unfolding keys erase
  erase-IsSorted k [] h = tt
  erase-IsSorted k ((i, w) ∷ m) h = elim (Bool-cases (same k i)) [
    | inl e ↦ rw e (erase-IsSorted k m (Above-IsSorted laws i (keys m) h))
    | inr e ↦ rw e (Above-erase i k m h)
  ]

  find-Above : (k : K) (m : Map K V) → Above k (keys m) → find k m ≡ none
  unfolding find keys
  find-Above k [] h = refl
  find-Above k ((i, w) ∷ m) h = ground (
    arith,
    same_iff laws k i,
    laws.irrefl k,
    find-Above k m (Above-trans laws k i (keys m) h.0 h.1),
  )

  erase-Above : (k : K) (m : Map K V) → Above k (keys m) → erase k m ≡ m
  unfolding erase keys
  erase-Above k [] h = refl
  erase-Above k ((i, w) ∷ m) h = ground (
    arith,
    same_iff laws k i,
    laws.irrefl k,
    erase-Above k m (Above-trans laws k i (keys m) h.0 h.1),
  )

  pub total-put :
      (f : V → ℕ) (k : K) (v : V) (m : Map K V)
      → IsSorted (keys m)
      → total f (put k v m) + weight f (find k m) ≡ total f m + f v
  unfolding put find keys
  total-put f k v [] h = omega arith
  total-put f k v ((i, w) ∷ m) h = ground (
    arith,
    total-put f k v m (Above-IsSorted laws i (keys m) h),
    find-Above k m,
    Above-trans laws k i (keys m),
  )

  pub total-erase :
      (f : V → ℕ) (k : K) (m : Map K V)
      → IsSorted (keys m)
      → total f (erase k m) + weight f (find k m) ≡ total f m
  unfolding erase find keys
  total-erase f k [] h = omega arith
  total-erase f k ((i, w) ∷ m) h = ground (
    arith,
    total-erase f k m (Above-IsSorted laws i (keys m) h),
    erase-Above k m,
    same_iff laws k i,
  )
