-- ===== src/Utils/Microbench/Args.antt =====
-- src/utils/microbench.c: the loop over the arguments, and what a thread does with the settings. An
-- exit is the error `terminated`; memory is taken to be enough. A number is taken to fit an `int`.
use libvsf.Prelude.{
  ℕ, ◌/◌, ◌^◌, Bool, ◌||◌, List, [], ◌∷◌, ◌==◌, ltb, if◌then◌else◌, length, set, replicate,
}
use libvsf.Prelude.Exec.{Result, ok, err, terminated, out_of_bounds}
use libvsf.Utils.StrTools.{Text, eq_text}
use libvsf.Utils.Numbers.{atoi}
use libvsf.Utils.PerfEvent.{int_to_u64}
use libvsf.Utils.Microbench.{parse_bytes, parse_types, random_type, stream_type}
use libvsf.Utils.Microbench.Load.{Work, stream_access_bandwidth, single_static_assignment}

-- The global variables that the arguments set.
pub record Settings : Type 0 where
  pub working_set_size : ℕ
  pub shared_size : ℕ
  pub loop_num : ℕ
  pub thread_num : ℕ
  pub workload_type : ℕ
  pub cpu_bindings : List ℕ

abbrev pub max_cpus : ℕ
max_cpus = 256

abbrev pub defaults : Settings
defaults = record {
  working_set_size = 10000;
  shared_size = 0;
  loop_num = 10000;
  thread_num = 1;
  workload_type = random_type;
  cpu_bindings = replicate max_cpus 0;
}

pub data Argument : Type 0 where
  arg_working_set_size arg_working_set_bytes arg_shared_size arg_shared_bytes : Argument
  arg_workload_type arg_loop arg_threads arg_binding arg_help arg_other : Argument

-- The names of the arguments, long and short.
abbrev pub is_working_set_size : Text → Bool
is_working_set_size arg =
    eq_text arg (
      b'-' ∷ b'-' ∷ b'w' ∷ b'o' ∷ b'r' ∷ b'k' ∷ b'i' ∷ b'n' ∷ b'g' ∷ b'_' ∷ b's' ∷ b'e' ∷ b't'
      ∷ b'_' ∷ b's' ∷ b'i' ∷ b'z' ∷ b'e' ∷ [])
    || eq_text arg (b'-' ∷ b'w' ∷ [])

abbrev pub is_working_set_bytes : Text → Bool
is_working_set_bytes arg =
    eq_text arg (
      b'-' ∷ b'-' ∷ b'w' ∷ b'o' ∷ b'r' ∷ b'k' ∷ b'i' ∷ b'n' ∷ b'g' ∷ b'_' ∷ b's' ∷ b'e' ∷ b't'
      ∷ b'_' ∷ b'b' ∷ b'y' ∷ b't' ∷ b'e' ∷ b's' ∷ [])
    || eq_text arg (b'-' ∷ b'w' ∷ b'b' ∷ [])

abbrev pub is_shared_size : Text → Bool
is_shared_size arg =
    eq_text arg (
      b'-' ∷ b'-' ∷ b's' ∷ b'h' ∷ b'a' ∷ b'r' ∷ b'e' ∷ b'd' ∷ b'_' ∷ b's' ∷ b'i' ∷ b'z' ∷ b'e' ∷ [])
    || eq_text arg (b'-' ∷ b's' ∷ [])

abbrev pub is_shared_bytes : Text → Bool
is_shared_bytes arg =
    eq_text arg (
      b'-' ∷ b'-' ∷ b's' ∷ b'h' ∷ b'a' ∷ b'r' ∷ b'e' ∷ b'd' ∷ b'_' ∷ b'b' ∷ b'y' ∷ b't' ∷ b'e'
      ∷ b's' ∷ [])
    || eq_text arg (b'-' ∷ b's' ∷ b'b' ∷ [])

abbrev pub is_workload_type : Text → Bool
is_workload_type arg =
    eq_text arg (
      b'-' ∷ b'-' ∷ b'w' ∷ b'o' ∷ b'r' ∷ b'k' ∷ b'l' ∷ b'o' ∷ b'a' ∷ b'd' ∷ b'_' ∷ b't' ∷ b'y'
      ∷ b'p' ∷ b'e' ∷ [])
    || eq_text arg (b'-' ∷ b'w' ∷ b't' ∷ [])

abbrev pub is_loop : Text → Bool
is_loop arg =
    eq_text arg (b'-' ∷ b'-' ∷ b'l' ∷ b'o' ∷ b'o' ∷ b'p' ∷ []) || eq_text arg (b'-' ∷ b'l' ∷ [])

abbrev pub is_threads : Text → Bool
is_threads arg =
    eq_text arg (b'-' ∷ b'-' ∷ b't' ∷ b'h' ∷ b'r' ∷ b'e' ∷ b'a' ∷ b'd' ∷ b's' ∷ [])
    || eq_text arg (b'-' ∷ b't' ∷ [])

abbrev pub is_binding : Text → Bool
is_binding arg =
    eq_text arg (b'-' ∷ b'-' ∷ b'b' ∷ b'i' ∷ b'n' ∷ b'd' ∷ b'i' ∷ b'n' ∷ b'g' ∷ [])
    || eq_text arg (b'-' ∷ b'b' ∷ [])

abbrev pub is_help : Text → Bool
is_help arg =
    eq_text arg (b'-' ∷ b'-' ∷ b'h' ∷ b'e' ∷ b'l' ∷ b'p' ∷ []) || eq_text arg (b'-' ∷ b'h' ∷ [])

unfoldable pub argument_of : Text → Argument
argument_of arg =
    if is_working_set_size arg
    then arg_working_set_size
    else if is_working_set_bytes arg
    then arg_working_set_bytes
    else if is_shared_size arg
    then arg_shared_size
    else if is_shared_bytes arg
    then arg_shared_bytes
    else if is_workload_type arg
    then arg_workload_type
    else if is_loop arg
    then arg_loop
    else if is_threads arg
    then arg_threads
    else if is_binding arg
    then arg_binding
    else if is_help arg
    then arg_help
    else arg_other

-- A number of bytes of 2 ^ 63 or more is negative as an `int64_t`.
abbrev pub words_of : ℕ → Result ℕ
words_of bytes = if ltb bytes (2 ^ 63) then ok (bytes / 8) else err terminated

-- Comparing with `<= 0` an unsigned number refuses 0 only.
abbrev pub positive : ℕ → Result ℕ
positive n = if n == 0 then err terminated else ok n

abbrev pub with_number : Result ℕ → (ℕ → Settings) → Result Settings
with_number (ok n) f = ok (f n)
with_number (err e) f = err e

-- An argument with its value.
unfoldable pub set_value : Argument → Text → Settings → Result Settings
set_value arg v s = elim arg [
  | arg_working_set_size ↦ ok (record s { working_set_size = int_to_u64 (atoi v) })
  | arg_working_set_bytes ↦
      with_number (words_of (parse_bytes v)) (λ n. record s { working_set_size = n })
  | arg_shared_size ↦ ok (record s { shared_size = int_to_u64 (atoi v) })
  | arg_shared_bytes ↦ with_number (words_of (parse_bytes v)) (λ n. record s { shared_size = n })
  | arg_workload_type ↦ ok (record s { workload_type = parse_types v })
  | arg_loop ↦ with_number (positive (int_to_u64 (atoi v))) (λ n. record s { loop_num = n })
  | arg_threads ↦ with_number (positive (int_to_u64 (atoi v))) (λ n. record s { thread_num = n })
  | _ ↦ ok s
]

-- The argument with two values.
unfoldable pub set_binding : Text → Text → Settings → Result Settings
set_binding cpu num s =
    let cpuid = int_to_u64 (atoi cpu) in
    let bind_num = int_to_u64 (atoi num) in
    if bind_num == 0
    then err terminated
    else if ltb cpuid (length s.cpu_bindings)
    then ok (record s { cpu_bindings = set s.cpu_bindings cpuid bind_num })
    else err out_of_bounds

-- The last argument, which has no value.
abbrev pub set_last : Argument → Settings → Result Settings
set_last arg s = elim arg [ arg_other ↦ ok s | _ ↦ err terminated ]

-- The loop over the arguments.
unfoldable pub read_args : List Text → Settings → Result Settings
read_args [] s = ok s
read_args (arg ∷ []) s = set_last (argument_of arg) s
read_args (arg ∷ v ∷ []) s = elim (argument_of arg) [
  | arg_other ↦ set_last (argument_of v) s
  | arg_help ↦ err terminated
  | arg_binding ↦ err terminated
  | a ↦ set_value a v s
]
read_args (arg ∷ v ∷ u ∷ more) s = elim (argument_of arg) [
  | arg_other ↦ read_args (v ∷ u ∷ more) s
  | arg_help ↦ err terminated
  | arg_binding ↦ elim (set_binding v u s) [ err e ↦ err e | ok s' ↦ read_args more s' ]
  | a ↦ elim (set_value a v s) [ err e ↦ err e | ok s' ↦ read_args (u ∷ more) s' ]
]

-- Without any argument the help is shown.
unfoldable pub settings_of : List Text → Result Settings
settings_of [] = err terminated
settings_of (arg ∷ args) = read_args (arg ∷ args) defaults

abbrev pub words_left : Result (Unit {0}) × Work → Result (List ℕ)
words_left (ok _, w) = ok w.data_chunk
words_left (err e, w) = err e

-- What `thread_main` does on its arrays: the one that it has worked on. A type that is out of range
-- does nothing.
unfoldable pub thread_work : Settings → ℕ → Result (List ℕ)
thread_work s tv_usec =
    let zeros = replicate s.working_set_size 0 in
    if s.workload_type == random_type
    then words_left (
        single_static_assignment s.working_set_size s.loop_num tv_usec
          (record { dump = replicate 100 0; data_chunk = zeros; lfsr = 0 }))
    else if s.workload_type == stream_type
    then stream_access_bandwidth s.loop_num s.working_set_size zeros
    else ok zeros
