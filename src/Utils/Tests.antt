-- ===== src/Utils/Tests.antt =====
-- The theorems on the tools applied to small values.
use libvsf.Prelude.{
  false, ℕ, ◌≤◌, ltb, if◌then◌else◌, ◌≡◌, ◌↔◌, refl, true, ◌&&◌, ◌||◌, not, none, some, List, [],
  ◌∷◌, ◌++◌, is_some,
}
use libvsf.Prelude.Int.{ℤ, pos}
use libvsf.Prelude.Exec.{ok}
use libvsf.Container.Order.{same}
use libvsf.Container.Map.{Map, index}
use libvsf.Container.Set.{member}
use libvsf.Utils.Options.{
  VsfOption, option_less, param_less, op_vm_base, op_vm_cpu_usage, op_vm_cache_miss, loop_interval,
}
use libvsf.Utils.ParamVal.{
  Member, sval, cval, ival, dval, pval, holding, assign, assign_str, assign_scalar,
}
use libvsf.Utils.ParamVal.Laws.{assign-holding}
use libvsf.Utils.FuncOption.{
  Params, FuncOption, enable_option, disable_option, check_option, get_param,
}
use libvsf.Utils.FuncOption.Laws.{last_of, disable-enable, check-get_param}
use libvsf.Utils.Microbench.{bind_threads}
use libvsf.Utils.Microbench.Bindings.{bound, bound_to, left_on, sum, bound-bind_threads}
use libvsf.Utils.Runnable.{Runnable, joinable_thread, idle, start, joinable, begin_stop}
use libvsf.Utils.Runnable.Reach.{
  started, stop_begun, Reach, at_first, after, reach-start, reach-stop,
}
use libvsf.Utils.StrTools.{
  Text, strip, prefix_and_digits, prefix_and_digits_node, prefix_and_digits_vcpu, node, vcpu,
}
use libvsf.Utils.StrTools.Strip.{IsBlank, BeginKept, EndKept, strip-parts}
use libvsf.Utils.StrTools.Names.{IsNumber, prefix_and_digits_iff}

-- " a,b\n" and its pieces
abbrev line : Text
line = 32 ∷ 97 ∷ 44 ∷ 98 ∷ 10 ∷ []

abbrev parts : List Text
parts = (97 ∷ []) ∷ (98 ∷ 99 ∷ []) ∷ []

abbrev node_12 : Text
node_12 = node ++ 49 ∷ 50 ∷ []

strip-parts_example :
    (l r : Text) × (line ≡ l ++ (strip line ++ r))
    × IsBlank l
    × IsBlank r
    × BeginKept (strip line)
    × EndKept (strip line)
strip-parts_example = strip-parts line

prefix_and_digits_iff_example :
    ((prefix_and_digits node_12 ≡ true) ↔ IsNumber node_12)
    × ((prefix_and_digits_node node_12 ≡ true)
        ↔ ((ds : Text) × (node_12 ≡ node ++ ds) × IsNumber ds))
    × ((prefix_and_digits_vcpu node_12 ≡ true)
        ↔ ((ds : Text) × (node_12 ≡ vcpu ++ ds) × IsNumber ds))
prefix_and_digits_iff_example = prefix_and_digits_iff node_12

abbrev name : Member ℕ
name = sval line

abbrev seven : Member ℕ
seven = ival (pos 7)

assign-holding_example :
    (assign (holding seven) (holding name) ≡ (ok tt, holding seven))
    × ((s : List ℕ) → assign_str s (holding name) ≡ (ok tt, holding (sval s)))
    × ((c : ℕ) → assign_scalar (cval c) (holding name) ≡ (ok tt, holding (cval c)))
    × ((i : ℤ) → assign_scalar (ival i) (holding name) ≡ (ok tt, holding (ival i)))
    × ((d : ℕ) → assign_scalar (dval d) (holding name) ≡ (ok tt, holding (dval d)))
    × ((p : ℕ) → assign_scalar (pval p) (holding name) ≡ (ok tt, holding (pval p)))
assign-holding_example = assign-holding name seven

abbrev enabled : FuncOption ℕ
enabled = record { options = (op_vm_base, []) ∷ [] }

abbrev more : Map VsfOption (Params ℕ)
more = (op_vm_cpu_usage, (loop_interval, holding seven) ∷ []) ∷ []

disable-enable_example :
    let s' = disable_option (op_vm_base ∷ []) (enable_option more enabled) in
    (check_option op_vm_cpu_usage s' ≡ (
      (is_some (last_of op_vm_cpu_usage more) || check_option op_vm_cpu_usage enabled)
      && not (member op_vm_cpu_usage (op_vm_base ∷ []))))
    × (check_option op_vm_cpu_usage s' ≡ true
        → (get_param op_vm_cpu_usage s').0 ≡ elim (last_of op_vm_cpu_usage more) [
          | some ps ↦ ps
          | none ↦ index op_vm_cpu_usage [] enabled.options
        ])
disable-enable_example = disable-enable more (op_vm_base ∷ []) enabled op_vm_cpu_usage

check-get_param_example :
    let s' = (get_param op_vm_cache_miss enabled).1 in
    (check_option op_vm_cache_miss s'
      ≡ (same op_vm_cache_miss op_vm_cache_miss || check_option op_vm_cache_miss enabled))
    × (check_option op_vm_cache_miss enabled ≡ true → s' ≡ enabled)
check-get_param_example = check-get_param enabled op_vm_cache_miss op_vm_cache_miss

-- "64"
abbrev sixty_four : Text
sixty_four = 54 ∷ 52 ∷ []

abbrev letter_k : ℕ
letter_k = 107

bound-bind_threads_example :
    (bound (bind_threads 5 true (2 ∷ 0 ∷ 1 ∷ []))
      ≡ (if ltb 5 (sum (2 ∷ 0 ∷ 1 ∷ [])) then 5 else sum (2 ∷ 0 ∷ 1 ∷ [])))
    × ((j : ℕ) → bound_to j (bind_threads 5 true (2 ∷ 0 ∷ 1 ∷ [])) ≤ left_on j (2 ∷ 0 ∷ 1 ∷ []))
bound-bind_threads_example = bound-bind_threads 5 (2 ∷ 0 ∷ 1 ∷ [])

-- A thread that has been started, and is then to be stopped.
abbrev running : Runnable
running = record { stop = false; thread = joinable_thread; runs = true; waits = false }

abbrev stopping : Runnable
stopping = record { stop = true; thread = joinable_thread; runs = true; waits = true }

running-reached : Reach running
unfolding start joinable
running-reached = after idle running at_first (started idle running refl refl)

stopping-reached : Reach stopping
unfolding begin_stop joinable
stopping-reached = after running stopping running-reached (stop_begun running refl)

reach-start_example :
    ((r' : Runnable) × (start running ≡ ok r') × (r'.runs ≡ true) × (joinable r' ≡ true))
    × (joinable running ≡ not running.stop)
reach-start_example = reach-start running running-reached refl

reach-stop_example :
    (r' : Runnable) × Reach r' × (r'.waits ≡ false) × (r'.runs ≡ false) × (joinable r' ≡ false)
reach-stop_example = reach-stop stopping stopping-reached refl
