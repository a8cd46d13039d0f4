-- ===== src/Utils/Search.antt =====
-- string::find and strstr, which look for a text in another one.
use libvsf.Prelude.{
  ℕ, suc, Bool, true, false, ◌&&◌, Option, none, some, [], ◌∷◌, ◌==◌, if◌then◌else◌, map_option,
}
use libvsf.Utils.StrTools.{Text, is_empty}

unfoldable pub starts_with : Text → Text → Bool
starts_with [] s = true
starts_with (p ∷ ps) [] = false
starts_with (p ∷ ps) (c ∷ cs) = p == c && starts_with ps cs

-- string::find
unfoldable pub find_text : Text → Text → Option ℕ
find_text pat [] = if is_empty pat then some 0 else none
find_text pat (c ∷ cs) =
    let rest = map_option suc (find_text pat cs) in
    if starts_with pat (c ∷ cs) then some 0 else rest
