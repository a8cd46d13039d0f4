-- ===== src/Utils/Microbench.antt =====
-- src/utils/microbench.c: the reading of its arguments, and which processor each thread is bound to.
mod Tests
pub mod Bindings
pub mod Sizes
pub mod Load
pub mod Streams
pub mod Touches
pub mod Args
pub mod Valid
use libvsf.Prelude.{
  ℕ, suc, ◌+◌, ◌-◌, ◌*◌, ◌^◌, Bool, true, false, ◌||◌, Option, none, some, List, [], ◌∷◌, ◌==◌, ltb,
  if◌then◌else◌, map_option,
}
use libvsf.Prelude.Word.{u64}
use libvsf.Prelude.Int.{ℤ, pos}
use libvsf.Utils.StrTools.{Text, is_digit}
use libvsf.Utils.Numbers.{digits_from}

abbrev pub sec_per_usec : ℕ
sec_per_usec = 1000000

-- The values of RANDOM_TYPE and STREAM_TYPE.
abbrev pub random_type : ℕ
random_type = 0

abbrev pub stream_type : ℕ
stream_type = 1

-- The last character of a text, of which the first is given.
abbrev pub last_char : ℕ → Text → ℕ
last_char c [] = c
last_char c (d ∷ ds) = last_char d ds

-- Whether a character is the letter of the code given, or its capital.
abbrev pub is_letter : ℕ → ℕ → Bool
is_letter letter c = c == letter || c + 32 == letter

-- The factor of a unit: m, k or b.
unfoldable pub unit_size : ℕ → ℕ
unit_size c =
    if is_letter 109 c
    then 1024 * 1024
    else if is_letter 107 c
    then 1024
    else if is_letter 98 c
    then 1
    else 0

-- A number of bytes with a unit; 0 for any other text. The number itself is below 2 ^ 63.
unfoldable pub parse_bytes : Text → ℕ
parse_bytes [] = 0
parse_bytes (c ∷ cs) =
    if is_digit c then u64 (digits_from 0 (c ∷ cs) * unit_size (last_char c cs)) else 0

-- The result -1 of an unsigned type.
unfoldable pub parse_types : Text → ℕ
parse_types [] = 2 ^ 64 - 1
parse_types (c ∷ cs) =
    if c == 114 then random_type else if c == 115 then stream_type else 2 ^ 64 - 1

-- A `struct timeval`, of a time after another one.
pub record Timeval : Type 0 where
  pub tv_sec : ℕ
  pub tv_usec : ℕ

unfoldable pub get_timeval_in_usec : Timeval → Timeval → ℕ
get_timeval_in_usec start_time end_time =
    sec_per_usec * (end_time.tv_sec - start_time.tv_sec) + end_time.tv_usec - start_time.tv_usec

-- The loop that looks for a processor to which a thread is still to be bound: the processor, and the
-- numbers of threads that are left.
unfoldable pub find_binding : List ℕ → Option (ℕ × List ℕ)
find_binding [] = none
find_binding (n ∷ ns) =
    let rest = find_binding ns in
    if ltb 0 n then some (0, (n - 1) ∷ ns) else map_option (λ p. (suc p.0, n ∷ p.1)) rest

-- The loop over the threads. Once no processor is found, no more is looked for.
unfoldable pub bind_threads : ℕ → Bool → List ℕ → List (Option ℕ)
bind_threads ℕ.zero find_cpu_bindings cpu_bindings = []
bind_threads (suc n) false cpu_bindings = none ∷ bind_threads n false cpu_bindings
bind_threads (suc n) true cpu_bindings = elim (find_binding cpu_bindings) [
  | none ↦ none ∷ bind_threads n false cpu_bindings
  | some (j, left) ↦ some j ∷ bind_threads n true left
]
