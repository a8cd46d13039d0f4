-- ===== src/Utils/StrTools.antt =====
-- src/utils/str_tools.cpp: operations on texts, which are lists of character codes.
pub mod Strip
pub mod Split
pub mod Names
use libvsf.Prelude.{
  ℕ, suc, ◌+◌, ◌-◌, Bool, true, false, ◌&&◌, ◌||◌, Option, none, some, List, [], ◌∷◌, ◌++◌, leb,
  ◌==◌, if◌then◌else◌, get_or, map_option, take, drop,
}
use libvsf.Prelude.Exec.{Exec, scandir_failed, raise, or_raise, modify, ◌>>=◌}

abbrev pub Text : Type 0
Text = List ℕ

-- The newline, the carriage return, the tab and the space.
abbrev pub is_space : ℕ → Bool
is_space c = c == 10 || c == 13 || c == 9 || c == 32

-- The positions that the two loops of `strip` find.
unfoldable pub first_kept : Text → Option ℕ
first_kept [] = none
first_kept (c ∷ cs) = if is_space c then map_option suc (first_kept cs) else some 0

unfoldable pub last_kept : Text → Option ℕ
last_kept [] = none
last_kept (c ∷ cs) = elim (last_kept cs) [
  | some i ↦ some (suc i)
  | none ↦ if is_space c then none else some 0
]

unfoldable pub strip : Text → Text
strip ret =
    let beg = get_or (first_kept ret) 0 in
    let end = get_or (map_option suc (last_kept ret)) 0 in take (end - beg) (drop beg ret)

abbrev pub is_empty {ℓ} : {A : Type ℓ} → List A → Bool
is_empty [] = true
is_empty (x ∷ xs) = false

-- Appends a piece that is not empty.
abbrev pub push_piece : Text → List Text → List Text
push_piece sub_str ret = if is_empty sub_str then ret else ret ++ sub_str ∷ []

-- The loop of `split` with the rest of the text, the piece read and the pieces before it.
unfoldable pub split_from : ℕ → Text → Text → List Text → List Text
split_from delim [] sub_str ret = push_piece sub_str ret
split_from delim (c ∷ cs) sub_str ret =
    split_from delim cs (if c == delim then [] else sub_str ++ c ∷ [])
      (if c == delim then push_piece sub_str ret else ret)

unfoldable pub split : Text → ℕ → List Text → List Text
split s delim ret = split_from delim s [] ret

abbrev pub is_digit : ℕ → Bool
is_digit c = leb 48 c && leb c 57

-- The loop on the characters up to the closing zero, which is no digit.
unfoldable pub digits_to_end : Text → Bool
digits_to_end [] = false
digits_to_end (c ∷ cs) = is_digit c && (is_empty cs || digits_to_end cs)

-- A name is given without its closing zero, which differs from every character of a prefix.
unfoldable pub after_prefix : Text → Text → Option Text
after_prefix [] name = some name
after_prefix (c ∷ cs) [] = none
after_prefix (c ∷ cs) (n ∷ ns) = let rest = after_prefix cs ns in if n == c then rest else none

-- "node" and "vcpu"
abbrev pub node : Text
node = 110 ∷ 111 ∷ 100 ∷ 101 ∷ []

abbrev pub vcpu : Text
vcpu = 118 ∷ 99 ∷ 112 ∷ 117 ∷ []

abbrev pub prefix_and_digits : Text → Bool
prefix_and_digits name = digits_to_end name

abbrev pub digits_after : Option Text → Bool
digits_after none = false
digits_after (some rest) = digits_to_end rest

unfoldable pub prefix_and_digits_node : Text → Bool
prefix_and_digits_node name = digits_after (after_prefix node name)

unfoldable pub prefix_and_digits_vcpu : Text → Bool
prefix_and_digits_vcpu name = digits_after (after_prefix vcpu name)

abbrev pub eq_text : Text → Text → Bool
eq_text [] [] = true
eq_text [] (d ∷ ds) = false
eq_text (c ∷ cs) [] = false
eq_text (c ∷ cs) (d ∷ ds) = c == d && eq_text cs ds

-- The filter for a prefix, if there is one.
unfoldable pub filter_of : Text → Option (Text → Bool)
filter_of dir_prefix =
    if eq_text dir_prefix []
    then some prefix_and_digits
    else if eq_text dir_prefix node
    then some prefix_and_digits_node
    else if eq_text dir_prefix vcpu
    then some prefix_and_digits_vcpu
    else none

-- `scandir` is given a directory and a filter; `none` is a negative result.
unfoldable pub get_dirs :
    (Text → (Text → Bool) → Option (List Text)) → Text → Text → Exec (List Text) (Unit {0})
get_dirs scandir dir dir_prefix = do
  accepts ← or_raise (filter_of dir_prefix) scandir_failed
  names ← or_raise (scandir dir accepts) scandir_failed
  modify (λ node_dirs. node_dirs ++ names)
