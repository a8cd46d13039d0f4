-- ===== src/Utils/StrTools/Split.antt =====
-- `split` cuts a text at a delimiter.
use libvsf.Prelude.{
  ℕ, ◌≡◌, refl, ap, sym, ◌∙◌, false, List, [], ◌∷◌, ◌++◌, arith, ◌==◌, if◌then◌else◌, All,
  Bool-cases, inl, inr,
}
use mathlib.Core.List.{append_assoc, append-nil}
use libvsf.Utils.StrTools.{Text, is_empty, push_piece, split_from, split}

-- What `split` appends.
abbrev pub pieces : ℕ → Text → List Text
pieces delim s = split s delim []

-- A piece is not empty and is free of the delimiter.
abbrev pub IsPiece : ℕ → Text → Type 0
IsPiece delim p = (is_empty p ≡ false) × All (λ c. (c == delim) ≡ false) p

abbrev pub concat : List Text → Text
concat [] = []
concat (p ∷ ps) = p ++ concat ps

-- The characters that are not the delimiter.
abbrev pub without : ℕ → Text → Text
without delim [] = []
without delim (c ∷ cs) = let rest = without delim cs in if c == delim then rest else c ∷ rest

-- The pieces, each with the delimiter after it.
abbrev pub join : ℕ → List Text → Text
join delim [] = []
join delim (p ∷ ps) = p ++ delim ∷ join delim ps

All-append {ℓ κ} :
    {A : Type ℓ} (P : A → Type κ) (xs ys : List A) → All P xs → All P ys → All P (xs ++ ys)
All-append P [] ys h k = k
All-append P (x ∷ xs) ys h k = (h.0, All-append P xs ys h.1 k)

concat-append : (ps qs : List Text) → concat (ps ++ qs) ≡ concat ps ++ concat qs
concat-append [] qs = refl
concat-append (p ∷ ps) qs =
    ap (λ t. p ++ t) (concat-append ps qs) ∙ sym (append_assoc p (concat ps) (concat qs))

push_piece-IsPiece :
    (delim : ℕ) (sub : Text) (ret : List Text)
    → All (λ c. (c == delim) ≡ false) sub
    → All (IsPiece delim) ret
    → All (IsPiece delim) (push_piece sub ret)
push_piece-IsPiece delim [] ret h k = k
push_piece-IsPiece delim (c ∷ cs) ret h k = All-append (IsPiece delim) ret _ k ((refl, h), tt)

concat-push_piece : (sub : Text) (ret : List Text) → concat (push_piece sub ret) ≡ concat ret ++ sub
concat-push_piece [] ret = sym (append-nil (concat ret))
concat-push_piece (c ∷ cs) ret =
    concat-append ret ((c ∷ cs) ∷ []) ∙ ap (λ t. concat ret ++ t) (append-nil (c ∷ cs))

split_from-IsPiece :
    (delim : ℕ) (s sub : Text) (ret : List Text)
    → All (λ c. (c == delim) ≡ false) sub
    → All (IsPiece delim) ret
    → All (IsPiece delim) (split_from delim s sub ret)
unfolding split_from
split_from-IsPiece delim [] sub ret h k = push_piece-IsPiece delim sub ret h k
split_from-IsPiece delim (c ∷ cs) sub ret h k = elim (Bool-cases (c == delim)) [
  | inl e ↦ rw e (
      split_from-IsPiece delim cs [] (push_piece sub ret) tt (push_piece-IsPiece delim sub ret h k))
  | inr e ↦ rw e (split_from-IsPiece delim cs (sub ++ c ∷ []) ret (All-append _ sub _ h (e, tt)) k)
]

concat-split_from :
    (delim : ℕ) (s sub : Text) (ret : List Text)
    → concat (split_from delim s sub ret) ≡ concat ret ++ (sub ++ without delim s)
unfolding split_from
concat-split_from delim [] sub ret =
    concat-push_piece sub ret ∙ ap (λ t. concat ret ++ t) (sym (append-nil sub))
concat-split_from delim (c ∷ cs) sub ret = elim (Bool-cases (c == delim)) [
  | inl e ↦ rw e (
      concat-split_from delim cs [] (push_piece sub ret)
      ∙ ap (λ t. t ++ without delim cs) (concat-push_piece sub ret)
      ∙ append_assoc (concat ret) sub (without delim cs))
  | inr e ↦ rw e (
      concat-split_from delim cs (sub ++ c ∷ []) ret
      ∙ ap (λ t. concat ret ++ t) (append_assoc sub (c ∷ []) (without delim cs)))
]

-- Each piece that `split` gives is not empty and free of the delimiter, and together they are the
-- text's other characters in their order.
pub split-IsPiece :
    (s : Text) (delim : ℕ)
    → All (IsPiece delim) (pieces delim s) × (concat (pieces delim s) ≡ without delim s)
unfolding split
split-IsPiece s delim = (split_from-IsPiece delim s [] [] tt tt, concat-split_from delim s [] [])

pub split_from-piece :
    (delim : ℕ) (p rest sub : Text) (ret : List Text)
    → All (λ c. (c == delim) ≡ false) p
    → split_from delim (p ++ rest) sub ret ≡ split_from delim rest (sub ++ p) ret
unfolding split_from
split_from-piece delim [] rest sub ret h =
    ap (λ t. split_from delim rest t ret) (sym (append-nil sub))
split_from-piece delim (c ∷ cs) rest sub ret h =
    rw (h.0, split_from)
      (split_from-piece delim cs rest (sub ++ c ∷ []) ret h.1
        ∙ ap (λ t. split_from delim rest t ret) (append_assoc sub (c ∷ []) cs))

pub split_from-delim :
    (delim : ℕ) (p rest : Text) (ret : List Text)
    → is_empty p ≡ false
    → split_from delim (delim ∷ rest) p ret ≡ split_from delim rest [] (ret ++ p ∷ [])
unfolding split_from
split_from-delim delim p rest ret e = ground (arith, e)

pub split-join :
    (delim : ℕ) (ps ret : List Text)
    → All (IsPiece delim) ps
    → split (join delim ps) delim ret ≡ ret ++ ps
unfolding split split_from
split-join delim ps ret h = go ps ret h
  where
    go :
        (ps ret : List Text)
        → All (IsPiece delim) ps
        → split_from delim (join delim ps) [] ret ≡ ret ++ ps
    go [] ret h = sym (append-nil ret)
    go (p ∷ ps) ret h =
        split_from-piece delim p (delim ∷ join delim ps) [] ret h.0.1
        ∙ split_from-delim delim p (join delim ps) ret h.0.0
        ∙ go ps (ret ++ p ∷ []) h.1
        ∙ append_assoc ret (p ∷ []) ps
