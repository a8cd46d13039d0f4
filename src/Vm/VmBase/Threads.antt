-- ===== src/Vm/VmBase/Threads.antt =====
-- The words of a line, and the volatile threads of a machine.
use libvsf.Prelude.{
  ℕ, ◌≡◌, Bool, false, ◌||◌, Option, none, some, List, [], ◌∷◌, arith, ◌==◌, if◌then◌else◌,
}
use libvsf.Prelude.Exec.{ok}
use libvsf.Container.Order.{nat_less}
use libvsf.Container.Set.{Set}
use libvsf.Utils.StrTools.{Text, eq_text}
use libvsf.Utils.Numbers.{digits_from}
use libvsf.Vm.VmId.{VmId, vm_id_less}
use libvsf.Vm.VmBase.Line.{value_after, with_last_again}
use libvsf.Vm.VmBase.Data.{VmBase}

-- The word after the first occurrence of a key, the key itself if it is the last word.
abbrev pub word_after : Text → List Text → Option Text
word_after key [] = none
word_after key (a ∷ []) = if eq_text a key then some a else none
word_after key (a ∷ b ∷ args) =
    let rest = word_after key (b ∷ args) in if eq_text a key then some b else rest

-- The iterator behind a key never is at the end of the arguments of a line that has some, because the
-- last one is there twice: the value is the word after the key, or the key where none follows.
pub value_after-with_last_again :
    (key tmp_str a : Text) (args : List Text)
    → value_after key (with_last_again tmp_str (a ∷ args)) ≡ ok (word_after key (a ∷ args))
unfolding value_after
value_after-with_last_again key tmp_str a [] = ground arith
value_after-with_last_again key tmp_str a (b ∷ []) = ground arith
value_after-with_last_again key tmp_str a (b ∷ c ∷ args) =
    ground (arith, value_after-with_last_again key a b (c ∷ args))

-- Whether a number is the name of one of the directories.
abbrev pub named : ℕ → List Text → Bool
named j [] = false
named j (dir ∷ dirs) = j == digits_from 0 dir || named j dirs
