-- ===== src/Utils/ParamVal.antt =====
-- `OptionParamVal` (utils/func_option.h, utils/func_option.cpp): a tag with a union, one of whose
-- members is a string, which has to be constructed and destroyed. `memory` is the member that is
-- alive. To use a member that is not alive, to construct a string over a live one, and to write over a
-- live string, which then leaks, are the fault `bad_union_member`.
pub mod Laws
use libvsf.Prelude.{
  ℕ, ◌≡◌, refl, Bool, true, false, ◌&&◌, not, Option, none, some, List, [], arith, if◌then◌else◌,
}
use libvsf.Prelude.Int.{ℤ, pos}
use libvsf.Prelude.Exec.{
  Result, ok, err, bad_union_member, Exec, pure, modify, or_raise, ◌>>=◌, ◌>>◌,
}

pub data Tag : Type 0 where
  str char int dbl ptr : Tag

abbrev is_str : Tag → Bool
is_str Tag.str = true
is_str _ = false

-- A member of the union with its value. `F` is the type `double`; a pointer is a number, null 0.
pub data Member (F : Type 0) : Type 0 where
  sval : List ℕ → Member F
  cval : ℕ → Member F
  ival : ℤ → Member F
  dval : F → Member F
  pval : ℕ → Member F

pub record OptionParamVal (F : Type 0) : Type 0 where
  pub type : Tag
  pub memory : Option (Member F)

module _ {F : Type 0} where
  abbrev pub tag_of : Member F → Tag
  tag_of (sval s) = Tag.str
  tag_of (cval c) = Tag.char
  tag_of (ival i) = Tag.int
  tag_of (dval d) = Tag.dbl
  tag_of (pval p) = Tag.ptr

  -- A value that holds the member `m`, as the constructors make it.
  abbrev pub holding : Member F → OptionParamVal F
  holding m = record { type = tag_of m; memory = some m }

  -- The constructor without arguments.
  abbrev pub init : OptionParamVal F
  init = holding (ival (pos 0))

  -- Reading the string, and the member that a tag names.
  abbrev read_string : Option (Member F) → Option (List ℕ)
  read_string (some (sval s)) = some s
  read_string _ = none

  abbrev read_member : Tag → Option (Member F) → Option (Member F)
  read_member Tag.str (some (sval s)) = some (sval s)
  read_member Tag.char (some (cval c)) = some (cval c)
  read_member Tag.int (some (ival i)) = some (ival i)
  read_member Tag.dbl (some (dval d)) = some (dval d)
  read_member Tag.ptr (some (pval p)) = some (pval p)
  read_member _ _ = none

  abbrev set_memory : Option (Member F) → OptionParamVal F → OptionParamVal F
  set_memory m v = record v { memory = m }

  -- Whether a string is alive.
  abbrev string_alive : OptionParamVal F → Bool
  string_alive v = elim v.memory [ some (sval s) ↦ true | _ ↦ false ]

  -- sval.~string(), new(&sval) string(s), sval = s, and a write of another member.
  abbrev destroy_string : Exec (OptionParamVal F) (Unit {0})
  destroy_string v =
      if string_alive v then (ok tt, set_memory none v) else (err bad_union_member, v)

  abbrev write_over : Member F → Exec (OptionParamVal F) (Unit {0})
  write_over m v =
      if string_alive v then (err bad_union_member, v) else (ok tt, set_memory (some m) v)

  abbrev assign_string : List ℕ → Exec (OptionParamVal F) (Unit {0})
  assign_string s v =
      if string_alive v then (ok tt, set_memory (some (sval s)) v) else (err bad_union_member, v)

  abbrev set_type : Tag → OptionParamVal F → OptionParamVal F
  set_type t v = record v { type = t }

  unfoldable pub copy_union : OptionParamVal F → Exec (OptionParamVal F) (Unit {0})
  copy_union o = do m ← or_raise (read_member o.type o.memory) bad_union_member; write_over m

  -- operator=(const OptionParamVal&)
  unfoldable pub assign : OptionParamVal F → Exec (OptionParamVal F) (Unit {0})
  assign o v =
      (do
        (if is_str v.type && not (is_str o.type) then destroy_string else pure tt)
        (if is_str v.type && is_str o.type
            then (do s ← or_raise (read_string o.memory) bad_union_member; assign_string s)
            else copy_union o)
        modify (set_type o.type))
        v

  -- operator=(const string&) and operator=(const char *)
  unfoldable pub assign_str : List ℕ → Exec (OptionParamVal F) (Unit {0})
  assign_str s v =
      (do
        (if is_str v.type then assign_string s else write_over (sval s))
        modify (set_type Tag.str))
        v

  -- The four assignments of a char, an int, a double and a pointer.
  unfoldable pub assign_scalar : Member F → Exec (OptionParamVal F) (Unit {0})
  assign_scalar m v =
      (do
        (if is_str v.type then destroy_string else pure tt)
        write_over m
        modify (set_type (tag_of m)))
        v

  -- The getters: the default where the tag is another; a read of a member that is not alive faults.
  unfoldable pub get_string : OptionParamVal F → Result (List ℕ)
  get_string v = elim v.type [
    | Tag.str ↦ elim v.memory [ some (sval s) ↦ ok s | _ ↦ err bad_union_member ]
    | _ ↦ ok []
  ]

  unfoldable pub get_char : OptionParamVal F → Result ℕ
  get_char v = elim v.type [
    | Tag.char ↦ elim v.memory [ some (cval c) ↦ ok c | _ ↦ err bad_union_member ]
    | _ ↦ ok 0
  ]

  unfoldable pub get_int : OptionParamVal F → Result ℤ
  get_int v = elim v.type [
    | Tag.int ↦ elim v.memory [ some (ival i) ↦ ok i | _ ↦ err bad_union_member ]
    | _ ↦ ok (pos 0)
  ]

  unfoldable pub get_double : F → OptionParamVal F → Result F
  get_double zero_double v = elim v.type [
    | Tag.dbl ↦ elim v.memory [ some (dval d) ↦ ok d | _ ↦ err bad_union_member ]
    | _ ↦ ok zero_double
  ]

  unfoldable pub get_pointer : OptionParamVal F → Result ℕ
  get_pointer v = elim v.type [
    | Tag.ptr ↦ elim v.memory [ some (pval p) ↦ ok p | _ ↦ err bad_union_member ]
    | _ ↦ ok 0
  ]
