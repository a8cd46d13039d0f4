-- ===== src/Utils/FuncOption.antt =====
-- `FuncOption` (utils/func_option.cpp): the options that are enabled, with their parameters.
pub mod Laws
use libvsf.Prelude.{◌≡◌, Bool, List, [], ◌∷◌}
use libvsf.Container.Map.{Map, contains, put, emplace, erase, index}
use libvsf.Utils.Options.{VsfOption, OptionParam, option_less, param_less}
use libvsf.Utils.ParamVal.{OptionParamVal}

abbrev pub Params : Type 0 → Type 0
Params F = Map OptionParam (OptionParamVal F)

pub record FuncOption (F : Type 0) : Type 0 where
  pub options : Map VsfOption (Params F)

module _ {F : Type 0} where
  abbrev put_all : Map VsfOption (Params F) → Map VsfOption (Params F) → Map VsfOption (Params F)
  put_all [] m = m
  put_all ((op, ps) ∷ ops) m = put_all ops (put op ps m)

  abbrev erase_all : List VsfOption → Map VsfOption (Params F) → Map VsfOption (Params F)
  erase_all [] m = m
  erase_all (op ∷ ops) m = erase_all ops (erase op m)

  unfoldable pub enable_option : Map VsfOption (Params F) → FuncOption F → FuncOption F
  enable_option ops s = record { options = put_all ops s.options }

  unfoldable pub disable_option : List VsfOption → FuncOption F → FuncOption F
  disable_option ops s = record { options = erase_all ops s.options }

  unfoldable pub check_option : VsfOption → FuncOption F → Bool
  check_option op s = contains op s.options

  -- options_[op], which adds a missing option.
  unfoldable pub get_param : VsfOption → FuncOption F → Params F × FuncOption F
  get_param op s = (index op [] s.options, record { options = emplace op [] s.options })
