-- ===== src/Vm/VmBase/Times.antt =====
-- The times that `ps` prints are read right.
use libvsf.Prelude.{ℕ, ◌+◌, ◌-◌, ◌*◌, ◌≡◌, false, [], ◌∷◌, ◌++◌}
use libvsf.Utils.StrTools.{Text, is_digit}
use libvsf.Vm.VmBase.Line.{dash, colon}

-- The value of a text of digits, after the number `n`.
abbrev pub decimal : ℕ → Text → ℕ
decimal n [] = n
decimal n (c ∷ cs) = decimal (n * 10 + (c - 48)) cs

-- What cannot go on a number.
abbrev Stops : Text → Type 0
Stops [] = Unit
Stops (c ∷ cs) = is_digit c ≡ false

-- The three ways in which `ps` prints a time: with days, with hours, and with minutes and seconds.
abbrev pub clock_2 : Text → Text → Text
clock_2 m s = m ++ colon ∷ s

abbrev pub clock_3 : Text → Text → Text → Text
clock_3 h m s = h ++ colon ∷ clock_2 m s

abbrev pub clock_4 : Text → Text → Text → Text → Text
clock_4 d h m s = d ++ dash ∷ clock_3 h m s
