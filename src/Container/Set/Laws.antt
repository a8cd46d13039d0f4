-- ===== src/Container/Set/Laws.antt =====
-- Sets of an ordered key: membership after each operation, and order.
use libvsf.Prelude.{
  ◌≡◌, refl, sym, ◌∙◌, true, false, ◌&&◌, ◌||◌, not, List, [], ◌∷◌, arith, inl, inr, Bool-cases,
}
use libvsf.Container.Order.{Less, IsOrder, same, same_iff}
use libvsf.Container.Set.{
  Set, member, insert, insert_all, set_difference, includes, subset, Above, IsSorted,
}

module _ {ℓ} {K : Type ℓ} ⦃o : Less K⦄ (laws : IsOrder o) where
  pub member-insert : (k j : K) (s : Set K) → member j (insert k s) ≡ (same j k || member j s)
  unfolding member insert
  member-insert k j [] = refl
  member-insert k j (i ∷ s) = ground (
    arith,
    same_iff laws k j,
    same_iff laws j k,
    same_iff laws j i,
    same_iff laws k i,
    member-insert k j s,
  )

  pub member-insert_all :
      (ks : List K) (j : K) (s : Set K) → member j (insert_all ks s) ≡ (member j ks || member j s)
  unfolding insert_all member
  member-insert_all [] j s = refl
  member-insert_all (k ∷ ks) j s =
      ground (arith, member-insert_all ks j (insert k s), member-insert k j s)

  pub Above-trans : (a b : K) (s : Set K) → o.less a b ≡ true → Above b s → Above a s
  Above-trans a b [] h q = tt
  Above-trans a b (c ∷ s) h q = (laws.trans a b c h q.0, q.1)

  -- What is not above the smallest element is not in the set.
  pub member-Above : (a : K) (s : Set K) → Above a s → member a s ≡ false
  unfolding member
  member-Above a [] q = refl
  member-Above a (b ∷ s) q = ground (
    arith,
    same_iff laws a b,
    laws.irrefl a,
    Above-trans a b s,
    member-Above a s (Above-trans a b s q.0 q.1),
  )

  -- Insertion keeps the order.
  pub Above-insert : (a k : K) (s : Set K) → o.less a k ≡ true → Above a s → Above a (insert k s)
  unfolding insert
  Above-insert a k [] h q = (h, tt)
  Above-insert a k (b ∷ s) h q = elim (Bool-cases (same k b)) [
    | inl e ↦ rw e q
    | inr e ↦ elim (Bool-cases (o.less k b)) [
      | inl l ↦ rw (e, l) (h, (l, q.1))
      | inr l ↦ rw (e, l) (q.0, Above-insert b k s (above b l e) q.1)
    ]
  ]
    where
      above : (b : K) → o.less k b ≡ false → same k b ≡ false → o.less b k ≡ true
      above b l e = ground (arith, laws.connected k b l, same_iff laws k b)

  pub insert-IsSorted : (k : K) (s : Set K) → IsSorted s → IsSorted (insert k s)
  unfolding insert
  insert-IsSorted k [] q = tt
  insert-IsSorted k (b ∷ s) q = elim (Bool-cases (same k b)) [
    | inl e ↦ rw e q
    | inr e ↦ elim (Bool-cases (o.less k b)) [
      | inl l ↦ rw (e, l) (l, q)
      | inr l ↦ rw (e, l) (Above-insert b k s (above l e) q)
    ]
  ]
    where
      above : o.less k b ≡ false → same k b ≡ false → o.less b k ≡ true
      above l e = ground (arith, laws.connected k b l, same_iff laws k b)

  pub insert_all-IsSorted : (ks : List K) (s : Set K) → IsSorted s → IsSorted (insert_all ks s)
  unfolding insert_all
  insert_all-IsSorted [] s q = q
  insert_all-IsSorted (k ∷ ks) s q = insert_all-IsSorted ks (insert k s) (insert-IsSorted k s q)

  pub Above-IsSorted : (a : K) (s : Set K) → Above a s → IsSorted s
  Above-IsSorted a [] q = tt
  Above-IsSorted a (b ∷ s) q = q.1

  -- On sorted ranges the merge of std::set_difference finds the difference of the sets.
  pub member-set_difference :
      (j : K) (s t : Set K)
      → IsSorted s
      → IsSorted t
      → member j (set_difference s t) ≡ (member j s && not (member j t))
  unfolding set_difference member
  member-set_difference j [] t p q = refl
  member-set_difference j (a ∷ s) [] p q = ground arith
  member-set_difference j (a ∷ s) (b ∷ t) p q = elim (Bool-cases (o.less a b)) [
    | inl lt ↦
        rw (lt, set_difference)
          (ground (
            arith,
            member-set_difference j s (b ∷ t) (Above-IsSorted a s p) q,
            member-Above a (b ∷ t) (lt, q),
            same_iff laws j a,
          ))
    | inr ge ↦ elim (Bool-cases (o.less b a)) [
      | inl gt ↦
          rw (ge, gt, set_difference)
            (ground (
              arith,
              member-set_difference j (a ∷ s) t p (Above-IsSorted b t q),
              member-Above b (a ∷ s) (gt, p),
              same_iff laws j b,
            ))
      | inr le ↦
          rw (ge, le, set_difference)
            (ground (
              arith,
              member-set_difference j s t (Above-IsSorted a s p) (Above-IsSorted b t q),
              laws.connected a b ge le,
              member-Above a s p,
              same_iff laws j a,
            ))
    ]
  ]

  subset-skip : (a : K) (s t : Set K) → Above a t → subset t (a ∷ s) ≡ subset t s
  unfolding member
  subset-skip a s [] q = refl
  subset-skip a s (b ∷ t) q =
      ground (
        arith,
        subset-skip a s t (Above-trans a b t q.0 q.1),
        same_iff laws b a,
        laws.irrefl a,
        q.0,
      )

  -- On sorted ranges the merge of std::includes finds whether the second set is a part of the first.
  pub includes-subset : (s t : Set K) → IsSorted s → IsSorted t → includes s t ≡ subset t s
  unfolding includes member
  includes-subset s [] p q = refl
  includes-subset [] (b ∷ t) p q = refl
  includes-subset (a ∷ s) (b ∷ t) p q = elim (Bool-cases (o.less b a)) [
    | inl lt ↦ rw (lt, includes) (ground (arith, member-Above b (a ∷ s) (lt, p)))
    | inr ge ↦ elim (Bool-cases (o.less a b)) [
      | inl gt ↦
          rw (ge, gt, includes)
            (includes-subset s (b ∷ t) (Above-IsSorted a s p) q
              ∙ sym (subset-skip a s (b ∷ t) (gt, q)))
      | inr le ↦
          let e : a ≡ b = laws.connected a b le ge in
          rw (ge, le, includes)
            (ground (
              arith,
              includes-subset s t (Above-IsSorted a s p) (Above-IsSorted b t q),
              subset-skip a s t (rw e q),
              same_iff laws b a,
              e,
            ))
    ]
  ]
