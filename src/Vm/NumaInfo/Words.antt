-- ===== src/Vm/NumaInfo/Words.antt =====
-- The last word of a line is read twice, which changes nothing.
use libvsf.Prelude.{
  ℕ, zero, suc, ◌≡◌, refl, ap, ◌∙◌, sym, ◌⊎◌, Option, none, some, List, [], ◌∷◌, arith, set,
  Bool-cases, Option-cases, inl, inr, ltb,
}
use libvsf.Prelude.Int.{pos}
use libvsf.Prelude.Exec.{ok, err, invalid_argument, ◌>>◌, bind-ok, >>=-eq-ok}
use libvsf.Utils.StrTools.{Text}
use libvsf.Vm.NumaInfo.Blocks.{MemBlock, max_node_num}
use libvsf.Vm.NumaInfo.Parse.{
  cut_at_equals, set_node, set_attribute, read_cut, read_word, read_words, last_again,
}
use libvsf.Utils.Numbers.{stoi}

set-set {ℓ} : {A : Type ℓ} (xs : List A) (i : ℕ) (v : A) → set (set xs i v) i v ≡ set xs i v
set-set [] i v = refl
set-set (x ∷ xs) zero v = refl
set-set (x ∷ xs) (suc i) v = ap (λ ys. x ∷ ys) (set-set xs i v)

with_pages : ℕ → ℕ → MemBlock → MemBlock
with_pages n v b = record b { num_pages_on_node = set b.num_pages_on_node n (pos v) }

with_pages-twice : (n v : ℕ) (b : MemBlock) → with_pages n v (with_pages n v b) ≡ with_pages n v b
unfolding with_pages
with_pages-twice n v b =
    ap (λ ns. record b { num_pages_on_node = ns }) (set-set b.num_pages_on_node n (pos v))

-- `set_node` throws on every block, or writes to every block.
set_node-cases :
    (digits value : Text)
    → ((b : MemBlock) → set_node digits value b ≡ (err invalid_argument, b))
      ⊎ ((n v : ℕ) × ((b : MemBlock) → set_node digits value b ≡ (ok tt, with_pages n v b)))
unfolding set_node with_pages
set_node-cases digits value = elim (Option-cases (stoi digits)) [
  | inl e ↦ inl (λ b. rw e refl)
  | inr (n, e) ↦ elim (Bool-cases (ltb n max_node_num)) [
    | inr l ↦ inl (λ b. rw (e, l) refl)
    | inl l ↦ elim (Option-cases (stoi value)) [
      | inl f ↦ inl (λ b. rw (e, l, f) refl)
      | inr (v, f) ↦ inr (n, v, λ b. rw (e, l, f) refl)
    ]
  ]
]

set_node-twice :
    (digits value : Text) (b b' : MemBlock)
    → set_node digits value b ≡ (ok tt, b')
    → set_node digits value b' ≡ (ok tt, b')
set_node-twice digits value b b' h = elim (set_node-cases digits value) [
  | inl throws ↦ ground (arith, h, throws b)
  | inr (n, v, writes) ↦
      let same : with_pages n v b ≡ b' = ap (λ p. p.1) (sym (writes b) ∙ h) in
      writes b'
      ∙ ap (λ c. (ok tt, c)) (ap (with_pages n v) (sym same) ∙ with_pages-twice n v b ∙ same)
]

set_attribute-twice :
    (attr_name value : Text) (b b' : MemBlock)
    → set_attribute attr_name value b ≡ (ok tt, b')
    → set_attribute attr_name value b' ≡ (ok tt, b')
unfolding set_attribute
set_attribute-twice [] value b b' h = ground (arith, h)
set_attribute-twice (c ∷ cs) value b b' h = ground (arith, h, set_node-twice cs value b b')

read_cut-twice :
    (s : Text) (cut : Option (Text × Text)) (b b' : MemBlock)
    → read_cut s cut b ≡ (ok tt, b')
    → read_cut s cut b' ≡ (ok tt, b')
read_cut-twice s none b b' h = ground (arith, h)
read_cut-twice s (some (attr_name, value)) b b' h = set_attribute-twice attr_name value b b' h

read_word-twice :
    (s : Text) (b b' : MemBlock) → read_word s b ≡ (ok tt, b') → read_word s b' ≡ (ok tt, b')
unfolding read_word
read_word-twice s b b' h = read_cut-twice s (cut_at_equals s) b b' h

-- Where the words of a line are read without an exception, the block is the one that reading each of
-- them once gives, although the loop reads the last one twice.
pub read_words-last_again :
    (policy s : Text) (ss : List Text) (b b' : MemBlock)
    → read_words (s ∷ ss) b ≡ (ok tt, b')
    → read_words (last_again policy (s ∷ ss)) b ≡ (ok tt, b')
unfolding read_words
read_words-last_again policy s [] b b' h =
    let (u, c, first, rest) = >>=-eq-ok (read_word s) (λ _. read_words []) b h in
    bind-ok (read_word s) (λ _. read_word s >> read_words []) b first
    ∙ bind-ok (read_word s) (λ _. read_words []) c (read_word-twice s b c first)
    ∙ rest
read_words-last_again policy s (t ∷ ts) b b' h =
    let (u, c, first, rest) = >>=-eq-ok (read_word s) (λ _. read_words (t ∷ ts)) b h in
    bind-ok (read_word s) (λ _. read_words (last_again s (t ∷ ts))) b first
    ∙ read_words-last_again s t ts c b' rest
