-- ===== src/Utils/Numbers.antt =====
-- How std::stoi and atoll read the number at the start of a text.
use libvsf.Prelude.{
  ℕ, ◌+◌, ◌-◌, ◌*◌, ◌&&◌, ◌||◌, Option, none, some, [], ◌∷◌, ◌==◌, leb, if◌then◌else◌, map_option,
  get_or,
}
use libvsf.Prelude.Int.{ℤ, pos, ◌-ℤ◌}
use libvsf.Utils.StrTools.{Text, is_digit}

-- The digits at the start of a text as a number, after the number `n`.
unfoldable pub digits_from : ℕ → Text → ℕ
digits_from n [] = n
digits_from n (c ∷ cs) =
    let rest = digits_from (n * 10 + (c - 48)) cs in if is_digit c then rest else n

-- stoi of a text that starts with a digit; it throws on any other one. Numbers with a sign or with
-- white space before them do not occur in what is read.
unfoldable pub stoi : Text → Option ℕ
stoi [] = none
stoi (c ∷ cs) = if is_digit c then some (digits_from 0 (c ∷ cs)) else none

-- The white space that std::stoi skips.
unfoldable pub skip_space : Text → Text
skip_space [] = []
skip_space (c ∷ cs) =
    let rest = skip_space cs in if c == 32 || (leb 9 c && leb c 13) then rest else c ∷ cs

-- std::stoi of a number that fits an `int`.
unfoldable pub stoi_signed : Text → Option ℤ
stoi_signed s = sign (skip_space s)
  where
    sign : Text → Option ℤ
    sign [] = none
    sign (c ∷ cs) =
        if c == 45
        then map_option (λ n. pos 0 -ℤ pos n) (stoi cs)
        else map_option pos (if c == 43 then stoi cs else stoi (c ∷ cs))

-- atoi of a number that fits an `int`; a text with no number at its start is 0.
unfoldable pub atoi : Text → ℤ
atoi s = get_or (stoi_signed s) (pos 0)
