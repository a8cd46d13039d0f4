-- ===== src/Vm/VmBase/Line.antt =====
-- The reading of a line of `ps -wwo etime=,pid=,args=` (`VmBase::refresh_most`).
use libvsf.Prelude.{
  ℕ, ◌+◌, ◌-◌, ◌*◌, Option, none, some, List, [], ◌∷◌, ◌==◌, if◌then◌else◌, get_or, get_elem?, leb,
}
use libvsf.Prelude.Exec.{Result, ok, err, dangling_pointer}
use libvsf.Utils.StrTools.{Text, is_digit, eq_text}

-- The words of a line.
pub record PsLine : Type 0 where
  pub start_timestamp : Text
  pub pid : Text
  pub args : List Text

abbrev pub count_of : ℕ → Text → ℕ
count_of c [] = 0
count_of c (d ∷ ds) = (if c == d then 1 else 0) + count_of c ds

-- The number that `sscanf` reads at the start of a text, after the number `n`, and the rest of it.
unfoldable pub scan_digits : ℕ → Text → ℕ × Text
scan_digits n [] = (n, [])
scan_digits n (c ∷ cs) =
    let rest = scan_digits (n * 10 + (c - 48)) cs in if is_digit c then rest else (n, c ∷ cs)

-- `sscanf` with the format of numbers with a character between each two, given with its separators; it
-- ends at what does not fit, and what it has not read stays 0.
unfoldable pub scan : List ℕ → Text → List ℕ
scan seps [] = []
scan [] (c ∷ cs) = if is_digit c then (scan_digits 0 (c ∷ cs)).0 ∷ [] else []
scan (sep ∷ seps) (c ∷ cs) =
    let (n, rest) = scan_digits 0 (c ∷ cs) in
    if is_digit c
    then n ∷ elim rest [ [] ↦ [] | d ∷ ds ↦ if d == sep then scan seps ds else [] ]
    else []

-- The `i`-th number that has been read.
abbrev pub number : List ℕ → ℕ → ℕ
number ns i = get_or (get_elem? ns i) 0

abbrev pub dash : ℕ
dash = 45

abbrev pub colon : ℕ
colon = 58

abbrev pub seconds_in : ℕ → ℕ → ℕ → ℕ → ℕ
seconds_in days hours minutes seconds = ((days * 24 + hours) * 60 + minutes) * 60 + seconds

-- The time for which a process has run.
unfoldable pub elapsed : Text → ℕ
elapsed t =
    let four = scan (dash ∷ colon ∷ colon ∷ []) t in
    let three = scan (colon ∷ colon ∷ []) t in
    let two = scan (colon ∷ []) t in
    if leb 1 (count_of dash t)
    then seconds_in (number four 0) (number four 1) (number four 2) (number four 3)
    else if count_of colon t == 2
    then seconds_in 0 (number three 0) (number three 1) (number three 2)
    else if count_of colon t == 1
    then seconds_in 0 0 (number two 0) (number two 1)
    else 0

-- The loop tests the stream before it reads: the last word is there twice, and without a word there is
-- what the variable held.
abbrev pub with_last_again : Text → List Text → List Text
with_last_again tmp_str [] = tmp_str ∷ []
with_last_again tmp_str (a ∷ args) = a ∷ with_last_again a args

-- *++find(args.begin(), args.end(), key), if the key is there. The iterator may be at the end.
unfoldable pub value_after : Text → List Text → Result (Option Text)
value_after key [] = ok none
value_after key (a ∷ args) =
    let rest = value_after key args in
    if eq_text a key then elim args [ [] ↦ err dangling_pointer | b ∷ bs ↦ ok (some b) ] else rest

-- The keys.
abbrev pub name_key : Text
name_key = 45 ∷ 110 ∷ 97 ∷ 109 ∷ 101 ∷ []

abbrev pub uuid_key : Text
uuid_key = 45 ∷ 117 ∷ 117 ∷ 105 ∷ 100 ∷ []

abbrev pub smp_key : Text
smp_key = 45 ∷ 115 ∷ 109 ∷ 112 ∷ []

abbrev pub m_key : Text
m_key = 45 ∷ 109 ∷ []

abbrev pub sockets_word : Text
sockets_word = 115 ∷ 111 ∷ 99 ∷ 107 ∷ 101 ∷ 116 ∷ 115 ∷ []

abbrev pub cores_word : Text
cores_word = 99 ∷ 111 ∷ 114 ∷ 101 ∷ 115 ∷ []

abbrev pub threads_word : Text
threads_word = 116 ∷ 104 ∷ 114 ∷ 101 ∷ 97 ∷ 100 ∷ 115 ∷ []

abbrev pub equals : ℕ
equals = 61

abbrev pub comma : ℕ
comma = 44
