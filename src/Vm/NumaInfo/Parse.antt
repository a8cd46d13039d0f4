-- ===== src/Vm/NumaInfo/Parse.antt =====
-- How a line of numa_maps is read (`NUMAMaps::get_mem_blocks`), from its address and its words.
use libvsf.Prelude.{
  ℕ, Bool, true, false, Option, none, some, List, [], ◌∷◌, ◌++◌, ltb, ◌==◌, if◌then◌else◌,
  map_option, set,
}
use libvsf.Prelude.Int.{ℤ, pos, ◌+ℤ◌, ltb_ℤ}
use libvsf.Prelude.Exec.{
  Result, ok, err, Exec, invalid_argument, modify, or_raise, pure, ◌>>=◌, ◌>>◌,
}
use libvsf.Utils.StrTools.{Text, eq_text, after_prefix}
use libvsf.Utils.Numbers.{stoi}
use libvsf.Vm.NumaInfo.Blocks.{NumaPolicy, MemType, MemBlock, new_block, max_node_num}

-- The words of the format.
abbrev pub default_word : Text
default_word = 68 ∷ 69 ∷ 70 ∷ 65 ∷ 85 ∷ 76 ∷ 84 ∷ []

abbrev pub prefer_word : Text
prefer_word = 112 ∷ 114 ∷ 101 ∷ 102 ∷ 101 ∷ 114 ∷ []

abbrev pub colon : ℕ
colon = 58

abbrev pub equals : ℕ
equals = 61

abbrev pub stack_word : Text
stack_word = 115 ∷ 116 ∷ 97 ∷ 99 ∷ 107 ∷ []

abbrev pub heap_word : Text
heap_word = 104 ∷ 101 ∷ 97 ∷ 112 ∷ []

abbrev pub file_word : Text
file_word = 102 ∷ 105 ∷ 108 ∷ 101 ∷ []

abbrev pub anon_word : Text
anon_word = 97 ∷ 110 ∷ 111 ∷ 110 ∷ []

abbrev pub dirty_word : Text
dirty_word = 100 ∷ 105 ∷ 114 ∷ 116 ∷ 121 ∷ []

abbrev pub active_word : Text
active_word = 97 ∷ 99 ∷ 116 ∷ 105 ∷ 118 ∷ 101 ∷ []

abbrev pub mapped_word : Text
mapped_word = 109 ∷ 97 ∷ 112 ∷ 112 ∷ 101 ∷ 100 ∷ []

abbrev pub mapmax_word : Text
mapmax_word = 109 ∷ 97 ∷ 112 ∷ 109 ∷ 97 ∷ 120 ∷ []

-- str.find(word), as what follows its first occurrence.
unfoldable pub after_word : Text → Text → Option Text
after_word word [] = after_prefix word []
after_word word (c ∷ cs) =
    let rest = after_word word cs in
    elim (after_prefix word (c ∷ cs)) [ some t ↦ some t | none ↦ rest ]

abbrev pub is_found : Option Text → Bool
is_found none = false
is_found (some t) = true

unfoldable pub get_numa_policy : Text → NumaPolicy
get_numa_policy s =
    if eq_text s default_word
    then NumaPolicy.default
    else if is_found (after_word prefer_word s)
    then NumaPolicy.prefer
    else NumaPolicy.default

unfoldable pub prefered_node : Text → Exec MemBlock (Unit {0})
prefered_node s b = elim (after_word (prefer_word ++ colon ∷ []) s) [
  | none ↦ pure tt b
  | some rest ↦
      (do n ← or_raise (stoi rest) invalid_argument; modify (λ b. record b { prefer_node = pos n }))
        b
]

unfoldable pub get_mem_type : Text → MemType
get_mem_type s =
    if eq_text s stack_word
    then MemType.stack
    else if eq_text s heap_word
    then MemType.heap
    else MemType.wtf

-- The text before and after the first equals sign, if there is one.
unfoldable pub cut_at_equals : Text → Option (Text × Text)
cut_at_equals [] = none
cut_at_equals (c ∷ cs) =
    let rest = cut_at_equals cs in
    if c == equals then some ([], cs) else map_option (λ p. (c ∷ p.0, p.1)) rest

abbrev with_number : Text → (ℤ → MemBlock → MemBlock) → Exec MemBlock (Unit {0})
with_number value store = do n ← or_raise (stoi value) invalid_argument; modify (store (pos n))

-- N<node>=<pages>; a node out of range ends the program by an assertion, which is `invalid_argument`
-- here too.
unfoldable pub set_node : Text → Text → Exec MemBlock (Unit {0})
set_node digits value = do
  node ← or_raise (stoi digits) invalid_argument
  checked ← or_raise (if ltb node max_node_num then some node else none) invalid_argument
  with_number value (λ n b. record b { num_pages_on_node = set b.num_pages_on_node checked n })

unfoldable pub set_attribute : Text → Text → Exec MemBlock (Unit {0})
set_attribute attr_name value =
    if eq_text attr_name file_word
    then modify (λ b. record b { file = value })
    else if eq_text attr_name anon_word
    then with_number value (λ n b. record b { anon = n })
    else if eq_text attr_name dirty_word
    then with_number value (λ n b. record b { dirty = n })
    else if eq_text attr_name active_word
    then with_number value (λ n b. record b { active = n })
    else if eq_text attr_name mapped_word
    then with_number value (λ n b. record b { mapped = n })
    else if eq_text attr_name mapmax_word
    then with_number value (λ n b. record b { mapmax = n })
    else elim attr_name [ [] ↦ pure tt | c ∷ cs ↦ if c == 78 then set_node cs value else pure tt ]

-- One word: an attribute has an equals sign, any other word is a type.
abbrev pub read_cut : Text → Option (Text × Text) → Exec MemBlock (Unit {0})
read_cut s none = modify (λ b. record b { mem_type = get_mem_type s })
read_cut s (some (attr_name, value)) = set_attribute attr_name value

unfoldable pub read_word : Text → Exec MemBlock (Unit {0})
read_word s = read_cut s (cut_at_equals s)

unfoldable pub read_words : List Text → Exec MemBlock (Unit {0})
read_words [] = pure tt
read_words (s ∷ ss) = read_word s >> read_words ss

-- The loop tests the stream before it reads, so that the last word is read twice; with no word after
-- the policy it is the policy.
abbrev pub last_again : Text → List Text → List Text
last_again tmp [] = tmp ∷ []
last_again tmp (s ∷ ss) = s ∷ last_again s ss

abbrev pub sum_positive : List ℤ → ℤ → ℤ
sum_positive [] sum = sum
sum_positive (n ∷ ns) sum = sum_positive ns (if ltb_ℤ (pos 0) n then sum +ℤ n else sum)

abbrev pub set_sum : MemBlock → MemBlock
set_sum b = record b { pages_sum = sum_positive b.num_pages_on_node b.pages_sum }

abbrev pub is_prefer : NumaPolicy → Bool
is_prefer NumaPolicy.prefer = true
is_prefer NumaPolicy.default = false

unfoldable pub read_line : ℕ → Text → List Text → Exec MemBlock (Unit {0})
read_line address policy words = do
  modify (λ b. record b { address = address; numa_policy = get_numa_policy policy })
  (if is_prefer (get_numa_policy policy) then prefered_node policy else pure tt)
  read_words (last_again policy words)
  modify set_sum

-- A line as its address, its policy and its further words.
pub record Line : Type 0 where
  pub address : ℕ
  pub policy : Text
  pub words : List Text

unfoldable pub read_lines : List Line → Exec (List MemBlock) (Unit {0})
read_lines [] blocks = (ok tt, blocks)
read_lines (l ∷ ls) blocks =
    let (r, b) = read_line l.address l.policy l.words new_block in
    elim r [ ok u ↦ read_lines ls (blocks ++ b ∷ []) | err e ↦ (err e, blocks) ]

-- Without the file, `none`, there are no blocks.
unfoldable pub get_mem_blocks : Option (List Line) → Exec (List MemBlock) (Unit {0})
get_mem_blocks none = pure tt
get_mem_blocks (some ls) = read_lines ls

-- The functions that are given a process read its blocks first.
unfoldable pub of_process : {A : Type 0} → (List MemBlock → A) → Option (List Line) → Result A
of_process f file =
    let (r, blocks) = get_mem_blocks file [] in elim r [ ok u ↦ ok (f blocks) | err e ↦ err e ]
