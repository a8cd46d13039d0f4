-- ===== src/Vm/VmNodeInfo/CmdLine.antt =====
-- The command line is read whole, as text with its arguments separated by spaces.
use mathlib.Core.List.{append_assoc, append-nil}
use libvsf.Prelude.{
  ℕ, zero, suc, ◌≤◌, ◌<◌, ◌≡◌, refl, sym, ap, ◌∙◌, false, some, none, List, [], ◌∷◌, ◌++◌, arith,
  ◌==◌, if◌then◌else◌, length, take, drop, All,
}
use libvsf.Prelude.Exec.{ok, err, out_of_bounds}
use libvsf.Utils.StrTools.{Text, is_empty}
use libvsf.Utils.StrTools.Split.{join}
use libvsf.Vm.VmNodeInfo.{read_chunks, blank_zeros, c_string, text_of, read_cmd_line}

take-append-drop {ℓ} : {A : Type ℓ} (n : ℕ) (xs : List A) → take n xs ++ drop n xs ≡ xs
take-append-drop zero xs = refl
take-append-drop (suc n) [] = refl
take-append-drop (suc n) (x ∷ xs) = ap (λ t. x ∷ t) (take-append-drop n xs)

length-drop-le {ℓ} : {A : Type ℓ} (n : ℕ) (xs : List A) → length (drop n xs) ≤ length xs
length-drop-le zero xs = omega arith
length-drop-le (suc n) [] = omega arith
length-drop-le (suc n) (x ∷ xs) = omega (arith, length-drop-le n xs)

-- With more fuel than there are bytes left the loop ends, and has read them all.
read_chunks-eq-append :
    (n fuel : ℕ) (rest buf : List ℕ)
    → length rest < fuel
    → read_chunks (suc n) fuel rest buf ≡ some (buf ++ rest)
unfolding read_chunks
read_chunks-eq-append n zero rest buf h = elim h [ ]
read_chunks-eq-append n (suc fuel) [] buf h = ap some (sym (append-nil buf))
read_chunks-eq-append n (suc fuel) (c ∷ cs) buf h =
    read_chunks-eq-append n fuel (drop n cs) (buf ++ c ∷ take n cs)
      (omega (arith, length-drop-le n cs))
    ∙ ap some (
        append_assoc buf (c ∷ take n cs) (drop n cs)
        ∙ ap (λ t. buf ++ c ∷ t) (take-append-drop n cs))

append-nonempty : (p q : Text) (c : ℕ) → is_empty (p ++ c ∷ q) ≡ false
append-nonempty [] q c = refl
append-nonempty (d ∷ p) q c = refl

blank_zeros-cons :
    (c : ℕ) (s : List ℕ)
    → is_empty s ≡ false
    → blank_zeros (c ∷ s) ≡ (if c == 0 then 32 else c) ∷ blank_zeros s
unfolding blank_zeros
blank_zeros-cons c [] h = cc h
blank_zeros-cons c (d ∷ s) h = refl

text_of-nonempty : (s : List ℕ) → is_empty s ≡ false → text_of s ≡ c_string (blank_zeros s)
text_of-nonempty [] h = cc h
text_of-nonempty (c ∷ s) h = refl

-- The arguments with a space between each two of them.
abbrev pub spaced : List Text → Text
spaced [] = []
spaced (a ∷ []) = a
spaced (a ∷ b ∷ more) = a ++ 32 ∷ spaced (b ∷ more)

abbrev pub HasNoZero : Text → Type 0
HasNoZero = All (λ c. (c == 0) ≡ false)

c_string-append :
    (a t r : Text)
    → HasNoZero a
    → is_empty t ≡ false
    → c_string (blank_zeros t) ≡ ok r
    → c_string (blank_zeros (a ++ t)) ≡ ok (a ++ r)
unfolding c_string
c_string-append [] t r h k e = e
c_string-append (c ∷ cs) [] r h k e = cc k
c_string-append (c ∷ cs) (d ∷ t) r h k e =
    rw
      (
        blank_zeros-cons c (cs ++ d ∷ t) (append-nonempty cs t d),
        h.0,
        h.0,
        c_string-append cs (d ∷ t) r h.1 k e,
      )
      refl

c_string-join :
    (a : Text) (more : List Text)
    → All HasNoZero (a ∷ more)
    → c_string (blank_zeros (join 0 (a ∷ more))) ≡ ok (spaced (a ∷ more))
unfolding c_string blank_zeros
c_string-join a [] h = c_string-append a (0 ∷ []) [] h.0 refl refl ∙ ap ok (append-nil a)
c_string-join a (b ∷ bs) h =
    c_string-append a (0 ∷ join 0 (b ∷ bs)) (32 ∷ spaced (b ∷ bs)) h.0 refl (
      rw
        (
          blank_zeros-cons 0 (join 0 (b ∷ bs)) (append-nonempty b (join 0 bs) 0),
          c_string-join b bs h.1,
        )
        refl)

read_cmd_line-file : (file : List ℕ) → read_cmd_line (some file) ≡ text_of file
unfolding read_cmd_line
read_cmd_line-file file =
    ap (λ r. elim r [ none ↦ err out_of_bounds | some buf ↦ text_of buf ])
      (read_chunks-eq-append 10239 (suc (length file)) file [] (omega arith))

-- The file holds each argument with a zero after it. The whole of it is read, however long it is: the
-- text is the arguments with spaces between them.
pub read_cmd_line-join :
    (arg : Text) (args : List Text)
    → All HasNoZero (arg ∷ args)
    → read_cmd_line (some (join 0 (arg ∷ args))) ≡ ok (spaced (arg ∷ args))
read_cmd_line-join arg args h =
    let file = join 0 (arg ∷ args) in
    read_cmd_line-file file
    ∙ text_of-nonempty file (append-nonempty arg (join 0 args) 0)
    ∙ c_string-join arg args h
