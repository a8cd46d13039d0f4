-- ===== src/Utils/Microbench/Bindings.antt =====
-- How many threads are bound to each processor.
use libvsf.Prelude.{
  ℕ, zero, suc, ◌+◌, ◌-◌, ◌≤◌, ◌≡◌, refl, ◌⊎◌, true, false, Option, none, some, List, [], ◌∷◌,
  arith, ◌==◌, ltb, if◌then◌else◌, get_elem?, get_or, Bool-cases, inl, inr,
}
use libvsf.Utils.Microbench.{find_binding, bind_threads}

abbrev pub left_on : ℕ → List ℕ → ℕ
left_on j ns = get_or (get_elem? ns j) 0

abbrev pub bound_to : ℕ → List (Option ℕ) → ℕ
bound_to j [] = 0
bound_to j (none ∷ bs) = bound_to j bs
bound_to j (some i ∷ bs) = (if i == j then 1 else 0) + bound_to j bs

abbrev pub bound : List (Option ℕ) → ℕ
bound [] = 0
bound (none ∷ bs) = bound bs
bound (some i ∷ bs) = suc (bound bs)

abbrev pub sum : List ℕ → ℕ
sum [] = 0
sum (n ∷ ns) = n + sum ns

left_on-cons :
    (n j i : ℕ) (ns left : List ℕ)
    → ((k : ℕ) → left_on k left + (if j == k then 1 else 0) ≡ left_on k ns)
    → left_on i (n ∷ left) + (if suc j == i then 1 else 0) ≡ left_on i (n ∷ ns)
left_on-cons n j zero ns left h = ground arith
left_on-cons n j (suc i) ns left h = ground (arith, h i)

left_on-head :
    (n i : ℕ) (ns : List ℕ)
    → ltb 0 n ≡ true
    → left_on i ((n - 1) ∷ ns) + (if 0 == i then 1 else 0) ≡ left_on i (n ∷ ns)
left_on-head n zero ns h = ground (arith, h)
left_on-head n (suc i) ns h = ground arith

-- The search takes one from a number that is not 0, if there is one.
find_binding-cases :
    (ns : List ℕ)
    → ((find_binding ns ≡ none) × (sum ns ≡ 0))
      ⊎ ((j : ℕ) × (left : List ℕ) × (find_binding ns ≡ some (j, left))
          × (suc (sum left) ≡ sum ns)
          × ((i : ℕ) → left_on i left + (if j == i then 1 else 0) ≡ left_on i ns))
unfolding find_binding
find_binding-cases [] = inl (refl, refl)
find_binding-cases (n ∷ ns) = elim (Bool-cases (ltb 0 n)) [
  | inl e ↦ inr (0, (n - 1) ∷ ns, rw e refl, ground (arith, e), λ i. left_on-head n i ns e)
  | inr e ↦ elim (find_binding-cases ns) [
    | inl (a, b) ↦ inl (rw (e, a) refl, ground (arith, e, b))
    | inr (j, left, a, b, c) ↦
        inr (suc j, n ∷ left, rw (e, a) refl, omega (arith, b), λ i. left_on-cons n j i ns left c)
  ]
]

bound_to-none : (n j : ℕ) (ns : List ℕ) → bound_to j (bind_threads n false ns) ≡ 0
unfolding bind_threads
bound_to-none zero j ns = refl
bound_to-none (suc n) j ns = bound_to-none n j ns

bound-none : (n : ℕ) (ns : List ℕ) → bound (bind_threads n false ns) ≡ 0
unfolding bind_threads
bound-none zero ns = refl
bound-none (suc n) ns = bound-none n ns

bind_threads-none :
    (n : ℕ) (ns : List ℕ)
    → find_binding ns ≡ none
    → bind_threads (suc n) true ns ≡ none ∷ bind_threads n false ns
unfolding bind_threads
bind_threads-none n ns e = rw (e, bind_threads) refl

bind_threads-some :
    (n j : ℕ) (ns left : List ℕ)
    → find_binding ns ≡ some (j, left)
    → bind_threads (suc n) true ns ≡ some j ∷ bind_threads n true left
unfolding bind_threads
bind_threads-some n j ns left e = rw (e, bind_threads) refl

-- Each thread is bound as long as a processor is left: as many threads are bound as there are threads
-- or bindings, whichever is fewer, and to no processor more than its number.
pub bound-bind_threads :
    (n : ℕ) (ns : List ℕ)
    → (bound (bind_threads n true ns) ≡ (if ltb n (sum ns) then n else sum ns))
      × ((j : ℕ) → bound_to j (bind_threads n true ns) ≤ left_on j ns)
unfolding bind_threads
bound-bind_threads zero ns = (ground arith, λ j. omega arith)
bound-bind_threads (suc n) ns = elim (find_binding-cases ns) [
  | inl (e, empty) ↦
      rw (bind_threads-none n ns e)
        (ground (arith, bound-none n ns, empty), λ j. omega (arith, bound_to-none n j ns))
  | inr (i, left, e, less, taken) ↦
      let (all, each) = bound-bind_threads n left in
      rw (bind_threads-some n i ns left e)
        (ground (arith, all, less), λ j. ground (arith, each j, taken j))
]
