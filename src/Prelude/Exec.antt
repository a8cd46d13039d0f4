-- ===== src/Prelude/Exec.antt =====
-- Calls that change an object and may throw (include/framework/exception.h). What was written before
-- a throw stays written, so the object comes back beside the error too.
use libvsf.Prelude.{◌≡◌, refl, ap, ◌∙◌, ◌⊎◌, inl, inr, Bool, Option, none, some}

-- The exceptions of the program, and the faults that end it.
pub data Error : Type 0 where
  file_open_failed scandir_failed mmap_failed : Error
  framework_init_more_than_twice compat_check_failed cpu_alloc_failed open_proc_failed : Error
  invalid_argument division_by_zero null_pointer dangling_pointer bad_union_member out_of_bounds
        terminated invalid_node uninitialized_read :
      Error

pub data Result {ℓ} (A : Type ℓ) : Type ℓ where
  ok : A → Result A
  err : Error → Result A

abbrev pub Exec {ℓ} : Type ℓ → Type ℓ → Type ℓ
Exec S A = S → Result A × S

module _ {ℓ} {S A : Type ℓ} where
  abbrev pub pure : A → Exec S A
  pure a s = (ok a, s)

  abbrev pub raise : Error → Exec S A
  raise e s = (err e, s)

  abbrev pub gets : (S → A) → Exec S A
  gets f s = (ok (f s), s)

  abbrev pub or_raise : Option A → Error → Exec S A
  or_raise none e s = (err e, s)
  or_raise (some a) e s = (ok a, s)

abbrev pub of_result {ℓ} : {S A : Type ℓ} → Result A → Exec S A
of_result r s = (r, s)

abbrev pub when : {S : Type 0} → Bool → Exec S (Unit {0}) → Exec S (Unit {0})
when Bool.true m s = m s
when Bool.false m s = (ok tt, s)

abbrev pub modify : {S : Type 0} → (S → S) → Exec S (Unit {0})
modify f s = (ok tt, f s)

abbrev pub throw_if : {S : Type 0} → Bool → Error → Exec S (Unit {0})
throw_if Bool.true e s = (err e, s)
throw_if Bool.false e s = (ok tt, s)

infixl 5 ◌>>=◌ ◌>>◌
abbrev pub ◌>>=◌ {ℓ} : {S A B : Type ℓ} → Exec S A → (A → Exec S B) → Exec S B
◌>>=◌ m f s = let (r, s') = m s in elim r [ ok a ↦ f a s' | err e ↦ (err e, s') ]

abbrev pub ◌>>◌ {ℓ} : {S A B : Type ℓ} → Exec S A → Exec S B → Exec S B
m >> k = m >>= λ _. k

-- What a successful sequence went through.
pub >>=-eq-ok {ℓ} :
    {S A B : Type ℓ} (m : Exec S A) (f : A → Exec S B) (s : S) {b : B} {t : S}
    → (m >>= f) s ≡ (ok b, t)
    → (a : A) × (s' : S) × (m s ≡ (ok a, s')) × (f a s' ≡ (ok b, t))
>>=-eq-ok {S = S} {A = A} {B = B} m f s {b} {t} h = go (m s).0 (m s).1 refl h
  where
    go :
        (r : Result A) (s' : S)
        → m s ≡ (r, s')
        → (elim r as (λ _. Result B × S) [ ok a ↦ f a s' | err e ↦ (err e, s') ]) ≡ (ok b, t)
        → (a : A) × (s' : S) × (m s ≡ (ok a, s')) × (f a s' ≡ (ok b, t))
    go (ok a) s' e h = (a, s', e, h)
    go (err x) s' e h = cc h

-- A sequence whose first part succeeds goes on from there.
pub bind-ok {ℓ} :
    {S A B : Type ℓ} (m : Exec S A) (f : A → Exec S B) (s : S) {a : A} {s' : S}
    → m s ≡ (ok a, s')
    → (m >>= f) s ≡ f a s'
bind-ok {S = S} {A = A} {B = B} m f s e =
    ap
      (λ (p : Result A × S). elim p.0 as (λ _. Result B × S) [
        | ok a ↦ f a p.1
        | err x ↦ (err x, p.1)
      ])
      e

-- A sequence whose first part fails fails with its error.
pub bind-err {ℓ} :
    {S A B : Type ℓ} (m : Exec S A) (f : A → Exec S B) (s : S) {x : Error} {s' : S}
    → m s ≡ (err x, s')
    → (m >>= f) s ≡ (err x, s')
bind-err {S = S} {A = A} {B = B} m f s e =
    ap
      (λ (p : Result A × S). elim p.0 as (λ _. Result B × S) [
        | ok a ↦ f a p.1
        | err x ↦ (err x, p.1)
      ])
      e

pub Result-cases {ℓ} :
    {A : Type ℓ} (r : Result A) → ((a : A) × (r ≡ ok a)) ⊎ ((e : Error) × (r ≡ err e))
Result-cases (ok a) = inl (a, refl)
Result-cases (err e) = inr (e, refl)

-- What the second part of a sequence leaves alone is as the first part left it, on every outcome.
pub bind-keeps {ℓ κ} :
    {S A B : Type ℓ} {X : Type κ} (q : S → X) (m : Exec S A) (f : A → Exec S B)
    → ((a : A) (s : S) → q (f a s).1 ≡ q s)
    → (s : S) → q ((m >>= f) s).1 ≡ q (m s).1
bind-keeps q m f keeps s = elim (Result-cases (m s).0) [
  | inl (a, e) ↦ ap q (ap (λ p. p.1) (bind-ok m f s (λ i. (e i, (m s).1)))) ∙ keeps a (m s).1
  | inr (x, e) ↦ ap q (ap (λ p. p.1) (bind-err m f s (λ i. (e i, (m s).1))))
]
