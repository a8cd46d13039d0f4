-- ===== src/Utils/Microbench/Streams.antt =====
-- What the streams of the benchmark leave in the array.
use libvsf.Prelude.{
  ℕ, zero, suc, ◌+◌, ◌-◌, ◌*◌, ◌/◌, ◌≤◌, ◌<◌, ◌≡◌, ◌⊎◌, refl, ap, ◌∙◌, Bool-cases, inl, inr, ◌&&◌,
  Option, none, some, List, arith, ◌==◌, ltb, leb, length, if◌then◌else◌, get_elem?, set,
  length-set, map_option,
}
use libvsf.Prelude.Elems.{get_elem?-some, get_elem?-set}
use libvsf.Prelude.Word.{u64}
use libvsf.Prelude.Exec.{ok}
use libvsf.Utils.Microbench.Load.{load, store, copy_up, copy_halves, stream_access_bandwidth}

pub load-some : (i : ℕ) (words : List ℕ) {v : ℕ} → get_elem? words i ≡ some v → load i words ≡ ok v
unfolding load
load-some i words e = rw e refl

pub store-ok : (i v : ℕ) (words : List ℕ) → i < length words → store i v words ≡ ok (set words i v)
unfolding store
store-ok i v words h = let (old, e) = get_elem?-some words i h in rw (load-some i words e) refl

abbrev pub increment : ℕ → ℕ
increment v = u64 (v + 1)

-- What a copy leaves at each place.
abbrev pub copied_up : ℕ → ℕ → ℕ → ℕ → List ℕ → ℕ → Option ℕ
copied_up n from to j words i =
    if leb (to + j) i && ltb i (to + j + n)
    then map_option increment (get_elem? words (from + (i - to)))
    else get_elem? words i

-- One element more, of the copies.
copied_up-suc :
    (n from to j v i : ℕ) (words : List ℕ)
    → get_elem? words (from + j) ≡ some v
    → to + j < length words
    → (to + suc n ≤ from) ⊎ (from + suc n ≤ to)
    → copied_up n from to (j + 1) (set words (to + j) (increment v)) i
      ≡ copied_up (suc n) from to j words i
copied_up-suc n from to j v i words e inside apart = elim (Bool-cases (to + j == i)) [
  | inl here ↦
      let place : from + (i - to) ≡ from + j = ground (arith, here) in
      let value : get_elem? words (from + (i - to)) ≡ some v = ap (get_elem? words) place ∙ e in
      ground (arith, here, value, get_elem?-set words (to + j) i (increment v) inside)
  | inr elsewhere ↦ ground (
    arith,
    elsewhere,
    apart,
    get_elem?-set words (to + j) i (increment v) inside,
    get_elem?-set words (to + j) (from + (i - to)) (increment v) inside,
  )
]

copy_up-suc :
    (n from to j v : ℕ) (words : List ℕ)
    → get_elem? words (from + j) ≡ some v
    → to + j < length words
    → copy_up (suc n) from to j words ≡ copy_up n from to (j + 1) (set words (to + j) (increment v))
unfolding copy_up
copy_up-suc n from to j v words e inside =
    rw (load-some (from + j) words e, store-ok (to + j) (increment v) words inside, copy_up) refl

copy_up-ok :
    (n from to j : ℕ) (words : List ℕ)
    → from + j + n ≤ length words
    → to + j + n ≤ length words
    → (to + n ≤ from) ⊎ (from + n ≤ to)
    → (words' : List ℕ) × (copy_up n from to j words ≡ ok words')
      × (length words' ≡ length words)
      × ((i : ℕ) → get_elem? words' i ≡ copied_up n from to j words i)
unfolding copy_up
copy_up-ok zero from to j words h k apart = (words, refl, refl, λ i. ground arith)
copy_up-ok (suc n) from to j words h k apart =
    let (v, e) = get_elem?-some words (from + j) (omega arith) in
    let inside : to + j < length words = omega arith in
    let words1 = set words (to + j) (u64 (v + 1)) in
    let size : length words1 ≡ length words = length-set words (to + j) (u64 (v + 1)) in
    let (words', done, size', elems) =
      copy_up-ok n from to (j + 1) words1 (omega arith) (omega arith) (ground (arith, apart)) in
    (
      words',
      copy_up-suc n from to j v words e inside ∙ done,
      size' ∙ size,
      λ i. elems i ∙ copied_up-suc n from to j v i words e inside apart,
    )

-- A round over two halves: afterwards an element of the first half is that of the second with one
-- added, and one of the second half has two added.
abbrev pub after_round : ℕ → List ℕ → ℕ → Option ℕ
after_round half words i =
    if ltb i half
    then map_option increment (get_elem? words (half + i))
    else if ltb i (half + half)
    then map_option (λ v. increment (increment v)) (get_elem? words i)
    else get_elem? words i

map_option-twice :
    (o : Option ℕ)
    → map_option increment (map_option increment o) ≡ map_option (λ v. increment (increment v)) o
map_option-twice none = refl
map_option-twice (some v) = refl

copied_up-twice :
    (half i : ℕ) (words words1 : List ℕ)
    → ((j : ℕ) → get_elem? words1 j ≡ copied_up half half 0 0 words j)
    → copied_up half 0 half 0 words1 i ≡ after_round half words i
copied_up-twice half i words words1 elems = elim (Bool-cases (ltb i half)) [
  | inl first ↦
      let place : half + (i - 0) ≡ half + i = omega arith in
      ground (arith, first, elems i, ap (get_elem? words) place)
  | inr other ↦
      let place : half + (0 + (i - half) - 0) ≡ i = ground (arith, other) in
      ground (
        arith,
        other,
        elems i,
        elems (0 + (i - half)),
        ap (get_elem? words) place,
        map_option-twice (get_elem? words i),
      )
]

pub copy_halves-ok :
    (size : ℕ) (words : List ℕ)
    → size ≤ length words
    → (words' : List ℕ) × (copy_halves size words ≡ ok words')
      × (length words' ≡ length words)
      × ((i : ℕ) → get_elem? words' i ≡ after_round (size / 2) words i)
unfolding copy_halves
copy_halves-ok size words h =
    let half = size / 2 in
    let fits : half + half ≤ length words = omega arith in
    let (words1, e1, size1, elems1) =
      copy_up-ok half half 0 0 words (omega arith) (omega arith) (inl (omega arith)) in
    let (words2, e2, size2, elems2) =
      copy_up-ok half 0 half 0 words1 (omega arith) (omega arith) (inr (omega arith)) in
    (
      words2,
      rw (e1, e2, copy_halves) refl,
      size2 ∙ size1,
      λ i. elems2 i ∙ copied_up-twice half i words words1 elems1,
    )

map_option-add :
    (m : ℕ) (o : Option ℕ)
    → map_option (λ v. u64 (v + m)) (map_option (λ v. increment (increment v)) o)
      ≡ map_option (λ v. u64 (v + (m + 2))) o
map_option-add m none = refl
map_option-add m (some v) =
    let e : u64 (increment (increment v) + m) ≡ u64 (v + (m + 2)) = omega arith in ap some e

map_option-once :
    (o : Option ℕ) → map_option increment o ≡ map_option (λ v. u64 (v + (2 * 0 + 1))) o
map_option-once none = refl
map_option-once (some v) = refl

map_option-both :
    (o : Option ℕ)
    → map_option (λ v. increment (increment v)) o ≡ map_option (λ v. u64 (v + (2 * 0 + 2))) o
map_option-both none = refl
map_option-both (some v) =
    let e : increment (increment v) ≡ u64 (v + (2 * 0 + 2)) = omega arith in ap some e

-- What `n + 1` rounds leave at each place.
abbrev pub streamed : ℕ → ℕ → List ℕ → ℕ → Option ℕ
streamed n half words i =
    if ltb i half
    then map_option (λ v. u64 (v + (2 * n + 1))) (get_elem? words (half + i))
    else if ltb i (half + half)
    then map_option (λ v. u64 (v + (2 * n + 2))) (get_elem? words i)
    else get_elem? words i

streamed-first : (half i : ℕ) (words : List ℕ) → after_round half words i ≡ streamed 0 half words i
streamed-first half i words =
    ground
      (arith, map_option-once (get_elem? words (half + i)), map_option-both (get_elem? words i))

streamed-next :
    (n half i : ℕ) (words words1 : List ℕ)
    → ((j : ℕ) → get_elem? words1 j ≡ after_round half words j)
    → streamed n half words1 i ≡ streamed (suc n) half words i
streamed-next n half i words words1 elems =
    let odd : 2 * suc n + 1 ≡ 2 * n + 1 + 2 = omega arith in
    let even : 2 * suc n + 2 ≡ 2 * n + 2 + 2 = omega arith in
    elim (Bool-cases (ltb i half)) [
      | inl first ↦
          let second : get_elem? words1 (half + i)
              ≡ map_option (λ v. increment (increment v)) (get_elem? words (half + i)) =
            ground (arith, first, elems (half + i)) in
          rw (first, second, odd) (map_option-add (2 * n + 1) (get_elem? words (half + i)))
      | inr other ↦ elim (Bool-cases (ltb i (half + half))) [
        | inl second ↦
            let twice : get_elem? words1 i
                ≡ map_option (λ v. increment (increment v)) (get_elem? words i) =
              ground (arith, other, second, elems i) in
            rw (other, second, twice, even) (map_option-add (2 * n + 2) (get_elem? words i))
        | inr behind ↦ rw (other, behind) (ground (arith, other, behind, elems i))
      ]
    ]

-- The run of a stream over an array of `size` elements or more never leaves the array. After n + 1
-- rounds an element of the second half has 2 n + 2 added, and one of the first half is that of the
-- second half with 2 n + 1 added, in 64 bits.
pub stream_access_bandwidth_lem :
    (n size : ℕ) (bw_data : List ℕ)
    → size ≤ length bw_data
    → (words : List ℕ) × (stream_access_bandwidth (suc n) size bw_data ≡ ok words)
      × (length words ≡ length bw_data)
      × ((i : ℕ) → get_elem? words i ≡ streamed n (size / 2) bw_data i)
unfolding stream_access_bandwidth
stream_access_bandwidth_lem zero size bw_data h =
    let (words, e, same_size, elems) = copy_halves-ok size bw_data h in
    (
      words,
      rw (e, stream_access_bandwidth) refl,
      same_size,
      λ i. elems i ∙ streamed-first (size / 2) i bw_data,
    )
stream_access_bandwidth_lem (suc n) size bw_data h =
    let (words1, e, size1, elems) = copy_halves-ok size bw_data h in
    let (words, e', size', elems') = stream_access_bandwidth_lem n size words1 (omega arith) in
    (
      words,
      rw (e, stream_access_bandwidth) e',
      size' ∙ size1,
      λ i. elems' i ∙ streamed-next n (size / 2) i bw_data words1 elems,
    )
