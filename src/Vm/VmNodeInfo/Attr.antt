-- ===== src/Vm/VmNodeInfo/Attr.antt =====
-- The value of an attribute in "name=value,name=value".
use mathlib.Core.List.{append_assoc, append-nil}
use libvsf.Prelude.{
  ℕ, zero, suc, ◌+◌, ◌≤◌, ◌<◌, ◌≡◌, refl, sym, ap, ◌∙◌, true, false, some, List, [], ◌∷◌, ◌++◌,
  arith, ◌==◌, length, take, drop, All, get_elem?, length-append, Option, none,
}
use libvsf.Utils.StrTools.{Text}
use libvsf.Utils.Search.{find_text}
use libvsf.Vm.VmNodeInfo.{until_equals, is_comma, back_to_comma, value_at, start_of, extract_attr}

drop-append {ℓ} : {A : Type ℓ} (xs ys : List A) → drop (length xs) (xs ++ ys) ≡ ys
drop-append [] ys = refl
drop-append (x ∷ xs) ys = drop-append xs ys

take-append {ℓ} : {A : Type ℓ} (xs ys : List A) → take (length xs) (xs ++ ys) ≡ xs
take-append [] ys = refl
take-append (x ∷ xs) ys = ap (λ t. x ∷ t) (take-append xs ys)

get_elem?-append {ℓ} :
    {A : Type ℓ} (xs ys : List A) (i : ℕ) → get_elem? (xs ++ ys) (length xs + i) ≡ get_elem? ys i
get_elem?-append [] ys i = let e : 0 + i ≡ i = omega arith in rw e refl
get_elem?-append (x ∷ xs) ys i =
    let e : length (x ∷ xs) + i ≡ suc (length xs + i) = omega arith in
    rw e (get_elem?-append xs ys i)

abbrev pub Without : ℕ → Text → Type 0
Without d = All (λ c. (c == d) ≡ false)

until_equals-append :
    (v rest : Text) → Without b'=' v → until_equals (v ++ rest) ≡ length v + until_equals rest
unfolding until_equals
until_equals-append [] rest h = omega arith
until_equals-append (c ∷ v) rest h = rw (h.0, until_equals-append v rest h.1) (omega arith)

is_comma-get_elem? :
    (k more : Text) (i : ℕ)
    → Without b',' k
    → i ≤ length k
    → is_comma (get_elem? (k ++ b'=' ∷ more) i) ≡ false
is_comma-get_elem? [] more zero h le = refl
is_comma-get_elem? [] more (suc i) h le = elim le [ ]
is_comma-get_elem? (c ∷ k) more zero h le = h.0
is_comma-get_elem? (c ∷ k) more (suc i) h le = is_comma-get_elem? k more i h.1 (omega (arith, le))

-- Back over positions without a comma, to one that holds a comma or is the first.
back_to_comma-back :
    (s : Text) (n j : ℕ)
    → is_comma (get_elem? s n) ≡ true
    → ((i : ℕ) → i < j → is_comma (get_elem? s (n + suc i)) ≡ false)
    → back_to_comma (n + j) s ≡ n
unfolding back_to_comma
back_to_comma-back s zero zero h k = refl
back_to_comma-back s (suc n) zero h k = let e : suc n + 0 ≡ suc n = omega arith in rw (e, h) refl
back_to_comma-back s n (suc j) h k =
    let e : n + suc j ≡ suc (n + j) = omega arith in
    let no_comma : is_comma (get_elem? s (suc (n + j))) ≡ false = rw (sym e) (k j (omega arith)) in
    rw (e, no_comma) (back_to_comma-back s n j h (λ i lt. k i (omega (arith, lt))))

-- What may follow a value: nothing, or a comma and another attribute.
unfoldable pub following : Option (Text × Text) → Text
following none = []
following (some (k, more)) = b',' ∷ (k ++ (b'=' ∷ more))

abbrev pub IsFollowing : Option (Text × Text) → Type 0
IsFollowing none = Unit
IsFollowing (some (k, more)) = Without b',' k × Without b'=' k

value_at-stop :
    (s : Text) (n m : ℕ)
    → until_equals s ≡ n
    → (n == length s) ≡ false
    → back_to_comma n s ≡ m
    → value_at s ≡ take m s
unfolding value_at
value_at-stop s n m e ne b = rw (e, ne, b) refl

value_at-last : (v : Text) → Without b'=' v → value_at v ≡ v
unfolding value_at until_equals
value_at-last v h =
    let nil = append-nil v in
    let e : until_equals v ≡ length v =
      ap until_equals (sym nil) ∙ until_equals-append v [] h ∙ omega arith in
    let same : (length v == length v) ≡ true = ground arith in
    rw (e, same) (ap (take (length v)) (sym nil) ∙ take-append v [])

value_at-followed :
    (v k more : Text)
    → Without b'=' v
    → Without b',' k
    → Without b'=' k
    → value_at (v ++ (b',' ∷ (k ++ (b'=' ∷ more)))) ≡ v
unfolding until_equals
value_at-followed v k more hv hk he =
    let s = v ++ (b',' ∷ (k ++ (b'=' ∷ more))) in
    let tail_stop : until_equals (k ++ b'=' ∷ more) ≡ length k =
      until_equals-append k (b'=' ∷ more) he ∙ omega arith in
    let stop : until_equals s ≡ length v + suc (length k) =
      until_equals-append v _ hv ∙ ap (λ n. length v + suc n) tail_stop in
    let len : length s ≡ length v + suc (length k + suc (length more)) =
      length-append v _ ∙ ap (λ n. length v + suc n) (length-append k (b'=' ∷ more)) in
    let inside : (length v + suc (length k) == length s) ≡ false = rw len (ground arith) in
    let comma : is_comma (get_elem? s (length v)) ≡ true =
      let z : length v ≡ length v + 0 = omega arith in
      rw z (ap is_comma (get_elem?-append v (b',' ∷ (k ++ (b'=' ∷ more))) 0)) in
    let none_between : (i : ℕ)
        → i < suc (length k)
        → is_comma (get_elem? s (length v + suc i)) ≡ false =
      λ i lt.
        ap is_comma (get_elem?-append v (b',' ∷ (k ++ (b'=' ∷ more))) (suc i))
        ∙ is_comma-get_elem? k more i hk (omega (arith, lt)) in
    value_at-stop s (length v + suc (length k)) (length v) stop inside
      (back_to_comma-back s (length v) (suc (length k)) comma none_between)
    ∙ take-append v _

value_at-following :
    (v : Text) (more : Option (Text × Text))
    → Without b'=' v
    → IsFollowing more
    → value_at (v ++ following more) ≡ v
unfolding following
value_at-following v none h k = ap value_at (append-nil v) ∙ value_at-last v h
value_at-following v (some (name, more)) h k = value_at-followed v name more h k.0 k.1

-- Where the name, with its '=', is first found at the end of `pre`, the value is what stands up to the
-- end or up to the comma before the next attribute. It may hold commas, but no '='.
pub extract_attr-value :
    (pre name v : Text) (more : Option (Text × Text))
    → find_text (name ++ b'=' ∷ []) (pre ++ (name ++ (b'=' ∷ (v ++ following more))))
      ≡ some (length pre)
    → Without b'=' v
    → IsFollowing more
    → extract_attr (pre ++ (name ++ (b'=' ∷ (v ++ following more)))) name ≡ v
unfolding extract_attr
extract_attr-value pre name v more found h k =
    let rest = v ++ following more in
    let front = pre ++ (name ++ (b'=' ∷ [])) in
    let whole : pre ++ (name ++ (b'=' ∷ rest)) ≡ front ++ rest = sym (
      append_assoc pre (name ++ (b'=' ∷ [])) rest
      ∙ ap (λ t. pre ++ t) (append_assoc name (b'=' ∷ []) rest)) in
    let len : length front ≡ length pre + suc (length name) =
      length-append pre _
      ∙ ap (λ n. length pre + n) (length-append name (b'=' ∷ []) ∙ omega arith) in
    ap (λ o. value_at (drop (start_of name o) (pre ++ (name ++ (b'=' ∷ rest))))) found
    ∙ ap (λ t. value_at (drop (length pre + suc (length name)) t)) whole
    ∙ ap (λ n. value_at (drop n (front ++ rest))) (sym len)
    ∙ ap value_at (drop-append front rest)
    ∙ value_at-following v more h k
