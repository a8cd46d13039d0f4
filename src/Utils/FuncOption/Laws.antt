-- ===== src/Utils/FuncOption/Laws.antt =====
-- Which options are enabled, and with which parameters.
use libvsf.Prelude.{
  ◌≡◌, refl, true, ◌&&◌, ◌||◌, not, Option, none, some, List, [], ◌∷◌, arith, if◌then◌else◌,
  is_some,
}
use libvsf.Container.Order.{same, same_iff}
use libvsf.Container.Map.{Map, find, put, emplace, erase, index, find-put, find-erase, find-emplace}
use libvsf.Container.Set.{member}
use libvsf.Utils.Options.{VsfOption, option_less, option_less-IsOrder}
use libvsf.Utils.FuncOption.{
  Params, FuncOption, put_all, erase_all, enable_option, disable_option, check_option, get_param,
}

module _ {F : Type 0} where
  -- The last entry of the list for an option.
  abbrev pub last_of : VsfOption → Map VsfOption (Params F) → Option (Params F)
  last_of op [] = none
  last_of op ((o, ps) ∷ ops) =
      let rest = last_of op ops in
      elim rest [ some qs ↦ some qs | none ↦ if same o op then some ps else none ]

  find-put_all :
      (ops m : Map VsfOption (Params F)) (op : VsfOption)
      → find op (put_all ops m) ≡ elim (last_of op ops) [ some ps ↦ some ps | none ↦ find op m ]
  find-put_all [] m op = refl
  find-put_all ((o, ps) ∷ ops) m op =
      ground (arith, find-put_all ops (put o ps m) op, find-put option_less-IsOrder o op ps m)

  find-erase_all :
      (ops : List VsfOption) (m : Map VsfOption (Params F)) (op : VsfOption)
      → find op (erase_all ops m) ≡ (if member op ops then none else find op m)
  unfolding member
  find-erase_all [] m op = refl
  find-erase_all (o ∷ ops) m op = ground (
    arith,
    find-erase_all ops (erase o m) op,
    find-erase option_less-IsOrder o op m,
    same_iff option_less-IsOrder o op,
    same_iff option_less-IsOrder op o,
  )

  -- Enabling some options and then disabling others: an option is enabled afterwards if it was, or is
  -- among the first, and is not among the second. Its parameters are then those of the last entry for
  -- it, and the old ones if there is none.
  pub disable-enable :
      (ops : Map VsfOption (Params F)) (off : List VsfOption) (s : FuncOption F) (op : VsfOption)
      → let s' = disable_option off (enable_option ops s) in
        (check_option op s'
          ≡ ((is_some (last_of op ops) || check_option op s) && not (member op off)))
        × (check_option op s' ≡ true
            → (get_param op s').0
              ≡ elim (last_of op ops) [ some ps ↦ ps | none ↦ index op [] s.options ])
  unfolding disable_option enable_option check_option get_param
  disable-enable ops off s op = (
    ground (arith, find-erase_all off (put_all ops s.options) op, find-put_all ops s.options op),
    λ e.
        ground
          (arith, find-erase_all off (put_all ops s.options) op, find-put_all ops s.options op),
  )

  -- Asking for the parameters of an option enables it, and no other one; only on an option that
  -- is enabled it changes nothing.
  pub check-get_param :
      (s : FuncOption F) (op j : VsfOption)
      → let s' = (get_param op s).1 in
        (check_option j s' ≡ (same op j || check_option j s)) × (check_option op s ≡ true → s' ≡ s)
  unfolding get_param check_option emplace
  check-get_param s op j = (
    ground (
      arith,
      find-emplace option_less-IsOrder op j [] s.options,
      same_iff option_less-IsOrder op j,
    ),
    λ e. rw e refl,
  )
