-- ===== src/Utils/Microbench/Valid.antt =====
-- The settings that the arguments make, and the work that is done with them.
use libvsf.Prelude.{
  ℕ, zero, suc, ◌≤◌, ◌<◌, ◌≡◌, refl, ap, ◌∙◌, false, List, [], ◌∷◌, arith, ◌==◌, ltb, length,
  length-set, replicate, Bool-cases, inl, inr,
}
use libvsf.Prelude.Exec.{Result, ok, err, terminated}
use libvsf.Utils.StrTools.{Text}
use libvsf.Utils.Numbers.{atoi}
use libvsf.Utils.PerfEvent.{int_to_u64}
use libvsf.Utils.Microbench.{parse_bytes, random_type, stream_type}
use libvsf.Utils.Microbench.Load.{Work, stream_access_bandwidth, single_static_assignment}
use libvsf.Utils.Microbench.Streams.{stream_access_bandwidth_lem}
use libvsf.Utils.Microbench.Touches.{single_static_assignment-Fits}
use libvsf.Utils.Microbench.Args.{
  Settings, defaults, Argument, arg_working_set_size, arg_working_set_bytes, arg_shared_size,
  arg_shared_bytes, arg_workload_type, arg_loop, arg_threads, arg_binding, arg_help, arg_other,
  argument_of, words_of, positive, with_number, set_value, set_binding, set_last, read_args,
  settings_of, words_left, thread_work,
}

abbrev pub Valid : Settings → Type 0
Valid s = (0 < s.loop_num) × (0 < s.thread_num) × (length s.cpu_bindings ≡ 256)

abbrev pub Made : Result Settings → Type 0
Made (ok s) = Valid s
Made (err e) = Unit

with_number-Made :
    (r : Result ℕ) (f : ℕ → Settings) → ((n : ℕ) → r ≡ ok n → Valid (f n)) → Made (with_number r f)
with_number-Made (ok n) f h = h n refl
with_number-Made (err e) f h = tt

positive-lt : (m n : ℕ) → positive m ≡ ok n → 0 < n
positive-lt zero n h = cc h
positive-lt (suc m) n h =
    let some_m : (suc m == 0) ≡ false = ground arith in
    let same_n : suc m ≡ n = cc (rw some_m at h) in omega (arith, same_n)

set_value-Made : (arg : Argument) (v : Text) (s : Settings) → Valid s → Made (set_value arg v s)
unfolding set_value
set_value-Made arg v s h = elim arg as (λ a. Made (set_value a v s)) [
  | arg_working_set_size ↦ h
  | arg_working_set_bytes ↦ with_number-Made (words_of (parse_bytes v)) _ (λ n e. h)
  | arg_shared_size ↦ h
  | arg_shared_bytes ↦ with_number-Made (words_of (parse_bytes v)) _ (λ n e. h)
  | arg_workload_type ↦ h
  | arg_loop ↦
      with_number-Made (positive (int_to_u64 (atoi v))) _
        (λ n e. (positive-lt (int_to_u64 (atoi v)) n e, h.1, h.2))
  | arg_threads ↦
      with_number-Made (positive (int_to_u64 (atoi v))) _
        (λ n e. (h.0, positive-lt (int_to_u64 (atoi v)) n e, h.2))
  | _ ↦ h
]

set_binding-Made : (cpu num : Text) (s : Settings) → Valid s → Made (set_binding cpu num s)
unfolding set_binding
set_binding-Made cpu num s h =
    let cpuid = int_to_u64 (atoi cpu) in
    let bind_num = int_to_u64 (atoi num) in
    elim (Bool-cases (bind_num == 0)) [
      | inl e ↦ rw e tt
      | inr e ↦ elim (Bool-cases (ltb cpuid (length s.cpu_bindings))) [
        | inl i ↦ rw (e, i) (h.0, h.1, length-set s.cpu_bindings cpuid bind_num ∙ h.2)
        | inr i ↦ rw (e, i) tt
      ]
    ]

set_last-Made : (arg : Argument) (s : Settings) → Valid s → Made (set_last arg s)
set_last-Made arg s h = elim arg as (λ a. Made (set_last a s)) [ arg_other ↦ h | _ ↦ tt ]

then-Made :
    (r : Result Settings) (f : Settings → Result Settings)
    → Made r
    → ((s : Settings) → Valid s → Made (f s))
    → Made (elim r [ err e ↦ err e | ok s ↦ f s ])
then-Made (ok s) f h k = k s h
then-Made (err e) f h k = tt

by_argument-Made :
    (a : Argument) (other binding : Result Settings) (value : Argument → Result Settings)
    → Made other
    → Made binding
    → ((b : Argument) → Made (value b))
    → Made (elim a [
      | arg_other ↦ other
      | arg_help ↦ err terminated
      | arg_binding ↦ binding
      | b ↦ value b
    ])
by_argument-Made a other binding value h k l =
    elim a
      as (λ c. Made (elim c [
        | arg_other ↦ other
        | arg_help ↦ err terminated
        | arg_binding ↦ binding
        | b ↦ value b
      ])) [ arg_other ↦ h | arg_help ↦ tt | arg_binding ↦ k | b ↦ l b ]

read_args-Made : (args : List Text) (s : Settings) → Valid s → Made (read_args args s)
unfolding read_args
read_args-Made [] s h = h
read_args-Made (arg ∷ []) s h = set_last-Made (argument_of arg) s h
read_args-Made (arg ∷ v ∷ []) s h =
    by_argument-Made (argument_of arg) (set_last (argument_of v) s) (err terminated)
      (λ a. set_value a v s) (set_last-Made (argument_of v) s h) tt (λ a. set_value-Made a v s h)
read_args-Made (arg ∷ v ∷ u ∷ more) s h =
    by_argument-Made (argument_of arg) (read_args (v ∷ u ∷ more) s)
      (elim (set_binding v u s) [ err e ↦ err e | ok s' ↦ read_args more s' ])
      (λ a. elim (set_value a v s) [ err e ↦ err e | ok s' ↦ read_args (u ∷ more) s' ])
      (read_args-Made (v ∷ u ∷ more) s h)
      (then-Made (set_binding v u s) (read_args more) (set_binding-Made v u s h)
        (read_args-Made more))
      (λ a.
        then-Made (set_value a v s) (read_args (u ∷ more)) (set_value-Made a v s h)
          (read_args-Made (u ∷ more)))

-- Whatever the arguments are, the settings that they make have at least one round, one thread and 256
-- processors to bind threads to.
pub settings_of-Made : (args : List Text) → Made (settings_of args)
unfolding settings_of
settings_of-Made [] = tt
settings_of-Made (arg ∷ args) =
    read_args-Made (arg ∷ args) defaults (omega arith, omega arith, refl)

length-replicate : (n : ℕ) → length {A = ℕ} (replicate n 0) ≡ n
length-replicate zero = refl
length-replicate (suc n) = ap suc (length-replicate n)

random-ok :
    (size loop_num tv_usec : ℕ) (dump : List ℕ)
    → 0 < size
    → 100 ≤ length dump
    → (words : List ℕ) × (words_left (
          single_static_assignment size loop_num tv_usec
            (record { dump = dump; data_chunk = replicate size 0; lfsr = 0 }))
        ≡ ok words)
      × (length words ≡ size)
random-ok size loop_num tv_usec dump p fits =
    let w : Work = record { dump = dump; data_chunk = replicate size 0; lfsr = 0 } in
    let (w', e, same_size) =
      single_static_assignment-Fits size loop_num tv_usec w p (omega (arith, length-replicate size))
        fits in
    (w'.data_chunk, ap words_left e, same_size.1 ∙ length-replicate size)

stream-ok :
    (loop_num size : ℕ)
    → 0 < loop_num
    → (words : List ℕ) × (stream_access_bandwidth loop_num size (replicate size 0) ≡ ok words)
      × (length words ≡ size)
stream-ok zero size p = elim p [ ]
stream-ok (suc n) size p =
    let (words, e, same_size, _) =
      stream_access_bandwidth_lem n size (replicate size 0)
        (omega (arith, length-replicate size)) in
    (words, e, same_size ∙ length-replicate size)

-- With any settings that the arguments make, a working set that is not empty, and whatever time it is,
-- the work of a thread ends without an access outside its arrays, and leaves as many words.
pub thread_work-settings_of :
    (args : List Text) (s : Settings) (tv_usec : ℕ)
    → settings_of args ≡ ok s
    → 0 < s.working_set_size
    → (words : List ℕ) × (thread_work s tv_usec ≡ ok words) × (length words ≡ s.working_set_size)
unfolding thread_work
thread_work-settings_of args s tv_usec e p =
    let valid : Valid s = rw e at (settings_of-Made args) in
    let size = s.working_set_size in
    elim (Bool-cases (s.workload_type == random_type)) [
      | inl random ↦
          let (words, done, same_size) =
            random-ok size s.loop_num tv_usec (replicate 100 0) p (omega arith) in
          (words, rw random done, same_size)
      | inr other ↦ elim (Bool-cases (s.workload_type == stream_type)) [
        | inl stream ↦
            let (words, done, same_size) = stream-ok s.loop_num size valid.0 in
            (words, rw (other, stream) done, same_size)
        | inr neither ↦ (replicate size 0, rw (other, neither) refl, length-replicate size)
      ]
    ]
