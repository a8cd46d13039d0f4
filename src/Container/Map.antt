-- ===== src/Container/Map.antt =====
-- std::map as the list of its entries in the order of the keys.
pub mod Total
use libvsf.Prelude.{
  ◌≡◌, refl, Bool, ◌&&◌, ◌||◌, not, Option, none, some, List, [], ◌∷◌, arith, if◌then◌else◌,
  is_some, get_or,
}
use libvsf.Container.Order.{Less, IsOrder, same, same_iff}
use libvsf.Container.Set.{member}

abbrev pub Map {ℓ κ} : Type ℓ → Type κ → Type (ℓ ⊔ κ)
Map K V = List (K × V)

module _ {ℓ κ} {K : Type ℓ} {V : Type κ} ⦃o : Less K⦄ where
  -- find(k)
  unfoldable pub find : K → Map K V → Option V
  find k [] = none
  find k ((j, v) ∷ m) = if same k j then some v else find k m

  -- count(k) > 0
  abbrev pub contains : K → Map K V → Bool
  contains k m = is_some (find k m)

  -- m[k] = v
  unfoldable pub put : K → V → Map K V → Map K V
  put k v [] = (k, v) ∷ []
  put k v ((j, w) ∷ m) =
      if same k j
      then (j, v) ∷ m
      else if o.less k j
      then (k, v) ∷ (j, w) ∷ m
      else (j, w) ∷ put k v m

  -- insert({k, v}) and emplace(k, v): an entry that is there stays
  unfoldable pub emplace : K → V → Map K V → Map K V
  emplace k v m = if contains k m then m else put k v m

  -- erase(k)
  unfoldable pub erase : K → Map K V → Map K V
  erase k [] = []
  erase k ((j, v) ∷ m) = let rest = erase k m in if same k j then rest else (j, v) ∷ rest

  -- m[k] as a value, where `d` is the value that a missing key is given
  abbrev pub index : K → V → Map K V → V
  index k d m = get_or (find k m) d

  unfoldable pub keys : Map K V → List K
  keys [] = []
  keys ((j, v) ∷ m) = j ∷ keys m

-- The laws of a map whose keys are ordered.
module _ {ℓ κ} {K : Type ℓ} {V : Type κ} ⦃o : Less K⦄ (laws : IsOrder o) where
  pub find-put :
      (k j : K) (v : V) (m : Map K V) → find j (put k v m) ≡ (if same k j then some v else find j m)
  unfolding find put
  find-put k j v [] = ground (arith, same_iff laws k j, same_iff laws j k)
  find-put k j v ((i, w) ∷ m) = ground (
    arith,
    same_iff laws k j,
    same_iff laws j k,
    same_iff laws j i,
    same_iff laws k i,
    find-put k j v m,
  )

  pub find-emplace :
      (k j : K) (v : V) (m : Map K V)
      → find j (emplace k v m) ≡ (if same k j && not (contains k m) then some v else find j m)
  unfolding emplace
  find-emplace k j v m = ground (arith, find-put k j v m)

  pub find-erase :
      (k j : K) (m : Map K V) → find j (erase k m) ≡ (if same k j then none else find j m)
  unfolding find erase
  find-erase k j [] = ground arith
  find-erase k j ((i, w) ∷ m) =
      ground (arith, same_iff laws k j, same_iff laws j i, same_iff laws k i, find-erase k j m)

  pub contains-put :
      (k j : K) (v : V) (m : Map K V) → contains j (put k v m) ≡ (same k j || contains j m)
  contains-put k j v m = ground (arith, find-put k j v m)

  pub member-keys : (j : K) (m : Map K V) → member j (keys m) ≡ contains j m
  unfolding find keys member
  member-keys j [] = refl
  member-keys j ((i, w) ∷ m) = ground (arith, member-keys j m)
