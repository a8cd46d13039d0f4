-- ===== src/Utils/StrTools/Strip.antt =====
-- `strip` takes away the white space at both ends.
use libvsf.Prelude.{
  ℕ, suc, ◌-◌, ◌≡◌, refl, ap, sym, ◌∙◌, true, false, none, some, [], ◌∷◌, ◌++◌, arith,
  if◌then◌else◌, get_or, map_option, take, drop, All, Bool-cases, Option-cases, inl, inr,
}
use libvsf.Utils.StrTools.{Text, is_space, first_kept, last_kept, strip}

abbrev pub IsBlank : Text → Type 0
IsBlank = All (λ c. is_space c ≡ true)

-- The text up to its last character that is no white space.
trim_end : Text → Text
trim_end cs = take (get_or (map_option suc (last_kept cs)) 0) cs

-- The last character, if there is one, is no white space.
abbrev pub EndKept : Text → Type 0
EndKept [] = Unit
EndKept (c ∷ []) = is_space c ≡ false
EndKept (c ∷ d ∷ ds) = EndKept (d ∷ ds)

abbrev pub BeginKept : Text → Type 0
BeginKept [] = Unit
BeginKept (c ∷ cs) = is_space c ≡ false

first_kept-none : (cs : Text) → last_kept cs ≡ none → (first_kept cs ≡ none) × IsBlank cs
unfolding first_kept last_kept
first_kept-none [] h = (refl, tt)
first_kept-none (c ∷ cs) h =
    let rest = first_kept-none cs in
    elim (Option-cases (last_kept cs)) [
      | inl e ↦ elim (Bool-cases (is_space c)) [
        | inl s ↦ (ground (arith, s, rest e), (s, (rest e).1))
        | inr s ↦ ground (arith, h, s, e)
      ]
      | inr (i, e) ↦ ground (arith, h, e)
    ]

first_kept-some : (cs : Text) (i : ℕ) → last_kept cs ≡ some i → (j : ℕ) × (first_kept cs ≡ some j)
unfolding first_kept last_kept
first_kept-some [] i h = ground (arith, h)
first_kept-some (c ∷ cs) i h = elim (Bool-cases (is_space c)) [
  | inr s ↦ (0, ground (arith, s))
  | inl s ↦ elim (Option-cases (last_kept cs)) [
    | inl e ↦ ground (arith, h, s, e)
    | inr (k, e) ↦ let (j, f) = first_kept-some cs k e in (suc j, ground (arith, s, f))
  ]
]

strip-none : (cs : Text) → last_kept cs ≡ none → strip cs ≡ []
unfolding strip
strip-none cs h = rw (h, (first_kept-none cs h).0) refl

strip-some :
    (cs : Text) (i j : ℕ)
    → first_kept cs ≡ some i
    → last_kept cs ≡ some j
    → strip cs ≡ take (suc j - i) (drop i cs)
unfolding strip
strip-some cs i j f l = rw (f, l) refl

last_kept-some :
    (c : ℕ) (cs : Text) (j : ℕ) → last_kept cs ≡ some j → last_kept (c ∷ cs) ≡ some (suc j)
unfolding last_kept
last_kept-some c cs j h = rw h refl

last_kept-none :
    (c : ℕ) (cs : Text)
    → last_kept cs ≡ none
    → last_kept (c ∷ cs) ≡ (if is_space c then none else some 0)
unfolding last_kept
last_kept-none c cs h = rw h refl

first_kept-space :
    (c : ℕ) (cs : Text) → is_space c ≡ true → first_kept (c ∷ cs) ≡ map_option suc (first_kept cs)
unfolding first_kept
first_kept-space c cs h = rw h refl

first_kept-kept : (c : ℕ) (cs : Text) → is_space c ≡ false → first_kept (c ∷ cs) ≡ some 0
unfolding first_kept
first_kept-kept c cs h = rw h refl

strip-space : (c : ℕ) (cs : Text) → is_space c ≡ true → strip (c ∷ cs) ≡ strip cs
strip-space c cs h = elim (Option-cases (last_kept cs)) [
  | inl e ↦
      strip-none (c ∷ cs) (last_kept-none c cs e ∙ ap (λ b. if b then none else some 0) h)
      ∙ sym (strip-none cs e)
  | inr (j, e) ↦
      let (i, f) = first_kept-some cs j e in
      strip-some (c ∷ cs) (suc i) (suc j) (first_kept-space c cs h ∙ ap (map_option suc) f)
        (last_kept-some c cs j e)
      ∙ ap (λ n. take n (drop i cs)) (omega arith)
      ∙ sym (strip-some cs i j f e)
]

trim_end-some :
    (c : ℕ) (cs : Text) (j : ℕ) → last_kept cs ≡ some j → trim_end (c ∷ cs) ≡ c ∷ trim_end cs
unfolding trim_end
trim_end-some c cs j h = rw (last_kept-some c cs j h, h) refl

strip-kept : (c : ℕ) (cs : Text) → is_space c ≡ false → strip (c ∷ cs) ≡ trim_end (c ∷ cs)
unfolding strip trim_end
strip-kept c cs h = rw (first_kept-kept c cs h) (ap (λ n. take n (c ∷ cs)) (omega arith))

EndKept-cons :
    (c : ℕ) (cs : Text) (j : ℕ)
    → last_kept cs ≡ some j
    → EndKept (trim_end cs)
    → EndKept (c ∷ trim_end cs)
unfolding trim_end last_kept
EndKept-cons c [] j h k = ground (arith, h)
EndKept-cons c (x ∷ xs) j h k = rw h (rw h at k)

trim_end-none : (cs : Text) → last_kept cs ≡ none → trim_end cs ≡ []
unfolding trim_end
trim_end-none cs h = rw h refl

trim_end-last :
    (c : ℕ) (cs : Text) → last_kept cs ≡ none → is_space c ≡ false → trim_end (c ∷ cs) ≡ c ∷ []
unfolding trim_end
trim_end-last c cs h k = rw (last_kept-none c cs h) (rw k refl)

trim_end-parts :
    (cs : Text) → (r : Text) × (cs ≡ trim_end cs ++ r) × IsBlank r × EndKept (trim_end cs)
unfolding trim_end last_kept
trim_end-parts [] = ([], refl, tt, tt)
trim_end-parts (c ∷ cs) = elim (Option-cases (last_kept cs)) [
  | inr (j, e) ↦
      let (r, whole, blank, kept) = trim_end-parts cs in
      rw (trim_end-some c cs j e) (r, ap (λ t. c ∷ t) whole, blank, EndKept-cons c cs j e kept)
  | inl e ↦
      let (first, blank) = first_kept-none cs e in
      elim (Bool-cases (is_space c)) [
        | inl s ↦
            rw
              (trim_end-none (c ∷ cs)
                (last_kept-none c cs e ∙ ap (λ b. if b then none else some 0) s))
              (c ∷ cs, refl, (s, blank), tt)
        | inr s ↦ rw (trim_end-last c cs e s) (cs, refl, blank, s)
      ]
]

BeginKept-trim_end : (c : ℕ) (cs : Text) → is_space c ≡ false → BeginKept (trim_end (c ∷ cs))
BeginKept-trim_end c cs h = elim (Option-cases (last_kept cs)) [
  | inl e ↦ rw (trim_end-last c cs e h) h
  | inr (j, e) ↦ rw (trim_end-some c cs j e) h
]

-- `strip` takes white space only, from the two ends only, and leaves none at either of them.
pub strip-parts :
    (s : Text)
    → (l r : Text) × (s ≡ l ++ (strip s ++ r))
      × IsBlank l
      × IsBlank r
      × BeginKept (strip s)
      × EndKept (strip s)
unfolding strip last_kept first_kept
strip-parts [] = ([], [], refl, tt, tt, tt, tt)
strip-parts (c ∷ cs) = elim (Bool-cases (is_space c)) [
  | inl s ↦
      let (l, r, whole, left, right, begin, end) = strip-parts cs in
      rw (strip-space c cs s) (c ∷ l, r, ap (λ t. c ∷ t) whole, (s, left), right, begin, end)
  | inr s ↦
      let (r, whole, blank, end) = trim_end-parts (c ∷ cs) in
      rw (strip-kept c cs s) ([], r, whole, tt, blank, BeginKept-trim_end c cs s, end)
]
