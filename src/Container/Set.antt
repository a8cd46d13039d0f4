-- ===== src/Container/Set.antt =====
-- std::set as the list of its elements in order, and the two algorithms on sorted ranges in use.
pub mod Laws
use libvsf.Prelude.{◌≡◌, Bool, true, false, ◌&&◌, ◌||◌, List, [], ◌∷◌, if◌then◌else◌}
use libvsf.Container.Order.{Less, same}

abbrev pub Set {ℓ} : Type ℓ → Type ℓ
Set K = List K

module _ {ℓ} {K : Type ℓ} ⦃o : Less K⦄ where
  -- count(k) > 0
  unfoldable pub member : K → Set K → Bool
  member k [] = false
  member k (j ∷ s) = same k j || member k s

  -- insert(k)
  unfoldable pub insert : K → Set K → Set K
  insert k [] = k ∷ []
  insert k (j ∷ s) = if same k j then j ∷ s else if o.less k j then k ∷ j ∷ s else j ∷ insert k s

  -- The range constructor and the insertion of a range.
  unfoldable pub insert_all : List K → Set K → Set K
  insert_all [] s = s
  insert_all (k ∷ ks) s = insert_all ks (insert k s)

  -- std::set_difference
  unfoldable pub set_difference : Set K → Set K → List K
  set_difference [] t = []
  set_difference (a ∷ s) [] = a ∷ s
  set_difference (a ∷ s) (b ∷ t) = elim (o.less a b) [
    | true ↦ a ∷ set_difference s (b ∷ t)
    | false ↦ elim (o.less b a) [ true ↦ set_difference (a ∷ s) t | false ↦ set_difference s t ]
  ]

  -- std::includes: is the second range in the first?
  unfoldable pub includes : Set K → Set K → Bool
  includes s [] = true
  includes [] (b ∷ t) = false
  includes (a ∷ s) (b ∷ t) = elim (o.less b a) [
    | true ↦ false
    | false ↦ elim (o.less a b) [ true ↦ includes s (b ∷ t) | false ↦ includes s t ]
  ]

  -- Whether every element of the first set is one of the second.
  abbrev pub subset : Set K → Set K → Bool
  subset [] s = true
  subset (b ∷ t) s = member b s && subset t s

  -- Every element of the list is greater than `a`, and the list is in strict order.
  abbrev pub Above : K → Set K → Type 0
  Above a [] = Unit
  Above a (b ∷ s) = (o.less a b ≡ true) × Above b s

  abbrev pub IsSorted : Set K → Type 0
  IsSorted [] = Unit
  IsSorted (a ∷ s) = Above a s
