-- ===== src/Vm/VmNodeInfo.antt =====
-- src/sysinfo/vm/static/vm_node_info.cpp (and its copy, vm_static_info.cpp): the NUMA nodes of a
-- virtual machine, from the command line of its process. The file of the command line is an argument,
-- `none` where it cannot be opened. A number is taken to fit an `int`; the byte behind the buffer of
-- `parse_cpu_string`, which is never written, is taken to be zero.
mod Tests
pub mod CmdLine
pub mod Attr
use libvsf.Prelude.{
  ℕ, zero, suc, ◌+◌, ◌-◌, ◌*◌, ◌/◌, Bool, true, false, ◌&&◌, ◌||◌, not, Option, none, some, List,
  [], ◌∷◌, ◌++◌, map, leb, ltb, ◌==◌, if◌then◌else◌, get_elem?, length, take, drop, map_option,
}
use libvsf.Prelude.Int.{ℤ, pos, negsuc, minus_one, pos_part, ◌+ℤ◌, ◌-ℤ◌, eqb_ℤ}
use libvsf.Prelude.Exec.{
  Result, ok, err, null_pointer, out_of_bounds, division_by_zero, Exec, pure, gets, modify,
  of_result, ◌>>=◌, ◌>>◌,
}
use libvsf.Utils.StrTools.{Text, is_empty, split, eq_text}
use libvsf.Utils.Search.{find_text}
use libvsf.Utils.Numbers.{atoi}
use libvsf.Host.NodeCpu.{dash_at}

abbrev pub buf_size : ℕ
buf_size = 10240

-- The loop over fread, with fuel: what is left of the file, and what has been read. `n` is the size of
-- the buffer; `none` means that the fuel ran out.
unfoldable pub read_chunks : ℕ → ℕ → List ℕ → List ℕ → Option (List ℕ)
read_chunks n zero rest buf = none
read_chunks n (suc fuel) rest buf =
    let more = read_chunks n fuel (drop n rest) (buf ++ take n rest) in
    if is_empty (take n rest) then some buf else more

-- Each zero but the last byte becomes a space.
unfoldable pub blank_zeros : List ℕ → List ℕ
blank_zeros [] = []
blank_zeros (c ∷ []) = c ∷ []
blank_zeros (c ∷ d ∷ cs) = (if c == 0 then 32 else c) ∷ blank_zeros (d ∷ cs)

abbrev pub prefix_ok : ℕ → Result Text → Result Text
prefix_ok c (ok t) = ok (c ∷ t)
prefix_ok c (err e) = err e

-- The text up to the first zero; without one it is read beyond the buffer.
unfoldable pub c_string : List ℕ → Result Text
c_string [] = err out_of_bounds
c_string (c ∷ cs) = let rest = c_string cs in if c == 0 then ok [] else prefix_ok c rest

-- Without any byte the buffer is a null pointer.
abbrev pub text_of : List ℕ → Result Text
text_of [] = err null_pointer
text_of (c ∷ cs) = c_string (blank_zeros (c ∷ cs))

-- The fuel is more than the bytes of the file.
unfoldable pub read_cmd_line : Option (List ℕ) → Result Text
read_cmd_line none = ok []
read_cmd_line (some file) = elim (read_chunks buf_size (suc (length file)) file []) [
  | none ↦ err out_of_bounds
  | some buf ↦ text_of buf
]

-- The position of the next '=', or the length.
unfoldable pub until_equals : Text → ℕ
until_equals [] = 0
until_equals (c ∷ cs) = let rest = until_equals cs in if c == b'=' then 0 else suc rest

abbrev pub is_comma : Option ℕ → Bool
is_comma none = false
is_comma (some c) = c == b','

-- Back from a position to the last comma before it, or to the start.
unfoldable pub back_to_comma : ℕ → Text → ℕ
back_to_comma zero s = 0
back_to_comma (suc i) s =
    let rest = back_to_comma i s in if is_comma (get_elem? s (suc i)) then suc i else rest

unfoldable pub value_at : Text → Text
value_at s =
    let stop = until_equals s in take (if stop == length s then stop else back_to_comma stop s) s

-- A name that is not found has the position -1, to which the length of the name with its '=' is added:
-- that is never -1.
abbrev pub start_of : Text → Option ℕ → ℕ
start_of name none = length name
start_of name (some i) = i + suc (length name)

unfoldable pub extract_attr : Text → Text → Text
extract_attr attr_str name =
    value_at (drop (start_of name (find_text (name ++ b'=' ∷ []) attr_str)) attr_str)

-- The loop that pushes the numbers from `i` on, with its rounds.
unfoldable pub range_from : ℤ → ℕ → List ℤ
range_from i zero = []
range_from i (suc k) = i ∷ range_from (i +ℤ pos 1) k

unfoldable pub cpus_of_token : Text → List ℤ
cpus_of_token token = elim (dash_at token) [
  | none ↦ atoi token ∷ []
  | some i ↦
      let first = atoi (take i token) in
      range_from first (pos_part (atoi (drop (suc i) token) +ℤ pos 1 -ℤ first))
]

unfoldable pub cpus_of_tokens : List Text → List ℤ
cpus_of_tokens [] = []
cpus_of_tokens (token ∷ tokens) = cpus_of_token token ++ cpus_of_tokens tokens

-- strtok gives the pieces between the commas that are not empty.
unfoldable pub parse_cpu_string : Text → List ℤ
parse_cpu_string cpu_str = cpus_of_tokens (split cpu_str b',' [])

-- A field that is not set has no value.
pub record VnodeStaticInfo : Type 0 where
  pub vnode_id : Option ℤ
  pub cpus : List ℤ
  pub mem_size_mb : Option ℤ
  pub static_bind : Option ℤ

abbrev pub number_of : Text → Option ℤ
number_of s = if is_empty s then none else some (atoi s)

-- "nodeid", "cpus", "mem" and "membind"
abbrev pub nodeid : Text
nodeid = b'n' ∷ b'o' ∷ b'd' ∷ b'e' ∷ b'i' ∷ b'd' ∷ []

abbrev pub cpus_name : Text
cpus_name = b'c' ∷ b'p' ∷ b'u' ∷ b's' ∷ []

abbrev pub mem_name : Text
mem_name = b'm' ∷ b'e' ∷ b'm' ∷ []

abbrev pub membind : Text
membind = b'm' ∷ b'e' ∷ b'm' ∷ b'b' ∷ b'i' ∷ b'n' ∷ b'd' ∷ []

unfoldable pub vnode_of : Text → VnodeStaticInfo
vnode_of token =
    let cpu_str = extract_attr token cpus_name in
    record {
      vnode_id = number_of (extract_attr token nodeid);
      cpus = if is_empty cpu_str then [] else parse_cpu_string cpu_str;
      mem_size_mb = number_of (extract_attr token mem_name);
      static_bind = number_of (extract_attr token membind);
    }

-- "-numa"
abbrev pub numa : Text
numa = b'-' ∷ b'n' ∷ b'u' ∷ b'm' ∷ b'a' ∷ []

-- The loop over the words of the command line.
unfoldable pub vnodes_of : List Text → List VnodeStaticInfo
vnodes_of [] = []
vnodes_of (token ∷ []) = []
vnodes_of (token ∷ next ∷ tokens) = elim (eq_text token numa) [
  | true ↦ vnode_of next ∷ vnodes_of tokens
  | false ↦ vnodes_of (next ∷ tokens)
]

abbrev pub is_blank : ℕ → Bool
is_blank c = c == 32 || (leb 9 c && leb c 13)

abbrev pub push_word : Text → List Text → List Text
push_word word words = if is_empty word then words else word ∷ words

-- The words that are read from the stream, with the one that has begun.
unfoldable pub words_from : Text → Text → List Text
words_from word [] = push_word word []
words_from word (c ∷ cs) =
    let rest = words_from (if is_blank c then [] else word ++ c ∷ []) cs in
    if is_blank c then push_word word rest else rest

pub record VmNodeInfo : Type 0 where
  pub vnode_num : ℕ
  pub vnode_info : List VnodeStaticInfo
  pub init : Bool

abbrev pub set_info : List VnodeStaticInfo → VmNodeInfo → VmNodeInfo
set_info infos s = record { vnode_num = length infos; vnode_info = infos; init = true }

unfoldable pub update : Option (List ℕ) → Exec VmNodeInfo (Unit {0})
update file = do
  cmdline ← of_result (read_cmd_line file)
  modify (set_info (vnodes_of (words_from [] cmdline)))

abbrev pub updated : Option (List ℕ) → Exec VmNodeInfo (Unit {0})
updated file s = if s.init then (ok tt, s) else update file s

unfoldable pub get_vnode_num : Option (List ℕ) → Exec VmNodeInfo ℕ
get_vnode_num file = do updated file; gets (λ s. s.vnode_num)

unfoldable pub get_vnode_ids : Option (List ℕ) → Exec VmNodeInfo (List (Option ℤ))
get_vnode_ids file = do updated file; gets (λ s. map (λ v. v.vnode_id) s.vnode_info)

abbrev pub has_id : ℕ → Option ℤ → Bool
has_id i none = false
has_id i (some j) = eqb_ℤ j (pos i)

unfoldable pub cpus_of : ℕ → List VnodeStaticInfo → List ℤ
cpus_of i [] = []
cpus_of i (v ∷ vs) = if has_id i v.vnode_id then v.cpus else cpus_of i vs

-- Where the command line tells no processors, each node has its share of the `vcpu_num`.
unfoldable pub default_cpus : ℕ → ℕ → ℕ → Result (List ℤ)
default_cpus vnode_id vcpu_num vnode_num =
    if vnode_num == 0
    then err division_by_zero
    else let share = vcpu_num / vnode_num in
      ok (range_from (pos (vnode_id * share)) ((vnode_id + 1) * share - vnode_id * share))

unfoldable pub get_vcpu_ids : Option (List ℕ) → ℕ → ℕ → Exec VmNodeInfo (List ℤ)
get_vcpu_ids file vnode_id vcpu_num = do
  updated file
  ret ← gets (λ s. cpus_of vnode_id s.vnode_info)
  vnode_num ← gets (λ s. s.vnode_num)
  of_result
      (if is_empty ret && ltb 0 vcpu_num then default_cpus vnode_id vcpu_num vnode_num else ok ret)
