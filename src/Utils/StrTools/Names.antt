-- ===== src/Utils/StrTools/Names.antt =====
-- Which names of a directory `get_dirs` takes.
use libvsf.Prelude.{
  ◌≡◌, refl, ap, ◌∙◌, ◌↔◌, true, false, some, [], ◌∷◌, ◌++◌, arith, ◌==◌, All, Bool-cases,
  Option-cases, inl, inr, ==_iff,
}
use libvsf.Utils.StrTools.{
  Text, is_empty, is_digit, digits_to_end, after_prefix, node, vcpu, digits_after,
  prefix_and_digits, prefix_and_digits_node, prefix_and_digits_vcpu,
}

-- A text of one digit or more.
abbrev pub IsNumber : Text → Type 0
IsNumber ds = (is_empty ds ≡ false) × All (λ c. is_digit c ≡ true) ds

digits_to_end-IsNumber : (ds : Text) → (digits_to_end ds ≡ true) ↔ IsNumber ds
unfolding digits_to_end
digits_to_end-IsNumber [] = (λ h. ground (arith, h), λ h. ground (arith, h.0))
digits_to_end-IsNumber (c ∷ []) = (λ h. (refl, (ground (arith, h), tt)), λ h. ground (arith, h.1.0))
digits_to_end-IsNumber (c ∷ d ∷ ds) =
    let (to, from) = digits_to_end-IsNumber (d ∷ ds) in
    (
      λ h. (refl, (ground (arith, h), (to (ground (arith, h))).1)),
      λ h. ground (arith, h.1.0, from (refl, h.1.1)),
    )

after_prefix-append : (p ds : Text) → after_prefix p (p ++ ds) ≡ some ds
unfolding after_prefix
after_prefix-append [] ds = refl
after_prefix-append (c ∷ cs) ds = ground (arith, after_prefix-append cs ds)

after_prefix-some : (p name ds : Text) → after_prefix p name ≡ some ds → name ≡ p ++ ds
unfolding after_prefix
after_prefix-some [] name ds h = cc h
after_prefix-some (c ∷ cs) [] ds h = cc h
after_prefix-some (c ∷ cs) (n ∷ ns) ds h = elim (Bool-cases (n == c)) [
  | inl e ↦
      let tail : ns ≡ cs ++ ds = after_prefix-some cs ns ds (ground (arith, h, e)) in
      ap (λ x. x ∷ ns) ((==_iff n c).0 e) ∙ ap (λ t. c ∷ t) tail
  | inr e ↦ ground (arith, h, e)
]

digits_after-IsNumber :
    (p name : Text)
    → (digits_after (after_prefix p name) ≡ true) ↔ ((ds : Text) × (name ≡ p ++ ds) × IsNumber ds)
digits_after-IsNumber p name = (
  λ h. elim (Option-cases (after_prefix p name)) [
    | inl e ↦ ground (arith, h, e)
    | inr (ds, e) ↦ (ds, after_prefix-some p name ds e, (digits_to_end-IsNumber ds).0 (rw e at h))
  ],
  λ (ds, e, number). rw (e, after_prefix-append p ds) ((digits_to_end-IsNumber ds).1 number),
)

-- The three filters take exactly the names that are the prefix with a number after it.
pub prefix_and_digits_iff :
    (name : Text)
    → ((prefix_and_digits name ≡ true) ↔ IsNumber name)
      × ((prefix_and_digits_node name ≡ true) ↔ ((ds : Text) × (name ≡ node ++ ds) × IsNumber ds))
      × ((prefix_and_digits_vcpu name ≡ true) ↔ ((ds : Text) × (name ≡ vcpu ++ ds) × IsNumber ds))
unfolding prefix_and_digits_node prefix_and_digits_vcpu
prefix_and_digits_iff name =
    (digits_to_end-IsNumber name, digits_after-IsNumber node name, digits_after-IsNumber vcpu name)
