-- ===== src/Utils/Microbench/Load.antt =====
-- src/utils/microbench.c: the memory accesses of a thread. A number of the arrays is a word of 64 bits;
-- an access beyond an array ends the run.
use Prim.Native.Nat.{bit_xor}
use libvsf.Prelude.{
  ℕ, zero, suc, ◌+◌, ◌/◌, ◌%◌, Option, none, some, List, ◌==◌, if◌then◌else◌, get_elem?, set,
}
use libvsf.Prelude.Word.{u64}
use libvsf.Prelude.Exec.{
  Result, ok, err, out_of_bounds, division_by_zero, Exec, pure, gets, of_result, ◌>>=◌, ◌>>◌,
}

-- MASK
abbrev pub mask : ℕ
mask = 3489660929

-- The next state of the shift register: its lowest bit is shifted out, and puts the mask in.
unfoldable pub lrand : ℕ → ℕ
lrand lfsr = bit_xor (lfsr / 2) (if lfsr % 2 == 1 then mask else 0)

abbrev pub read_elem : Option ℕ → Result ℕ
read_elem none = err out_of_bounds
read_elem (some v) = ok v

-- words[i], and words[i] = v
unfoldable pub load : ℕ → List ℕ → Result ℕ
load i words = read_elem (get_elem? words i)

abbrev pub store_over : Result ℕ → ℕ → ℕ → List ℕ → Result (List ℕ)
store_over (ok old) i v words = ok (set words i v)
store_over (err e) i v words = err e

unfoldable pub store : ℕ → ℕ → List ℕ → Result (List ℕ)
store i v words = store_over (load i words) i v words

-- A loop that sets words[to + j] to words[from + j] + 1 for each j from `j` on, with its rounds.
unfoldable pub copy_up : ℕ → ℕ → ℕ → ℕ → List ℕ → Result (List ℕ)
copy_up zero from to j words = ok words
copy_up (suc n) from to j words = elim (load (from + j) words) [
  | err e ↦ err e
  | ok v ↦ elim (store (to + j) (u64 (v + 1)) words) [
    | err e ↦ err e
    | ok words' ↦ copy_up n from to (j + 1) words'
  ]
]

-- One round: the first half from the second, and then the second from the first.
unfoldable pub copy_halves : ℕ → List ℕ → Result (List ℕ)
copy_halves size words = elim (copy_up (size / 2) (size / 2) 0 0 words) [
  | err e ↦ err e
  | ok words' ↦ copy_up (size / 2) 0 (size / 2) 0 words'
]

-- The loop with its rounds, `loop_num` at first.
unfoldable pub stream_access_bandwidth : ℕ → ℕ → List ℕ → Result (List ℕ)
stream_access_bandwidth zero size bw_data = ok bw_data
stream_access_bandwidth (suc n) size bw_data = elim (copy_halves size bw_data) [
  | err e ↦ err e
  | ok words ↦ stream_access_bandwidth n size words
]

-- What `single_static_assignment` works on.
pub record Work : Type 0 where
  pub dump : List ℕ
  pub data_chunk : List ℕ
  pub lfsr : ℕ

-- rnum
unfoldable pub rnum : ℕ → Exec Work ℕ
rnum working_set_size w =
    let w' = record w { lfsr = lrand w.lfsr } in
    if working_set_size == 0
    then (err division_by_zero, w')
    else (ok (w'.lfsr % working_set_size), w')

abbrev pub on_data : Result (List ℕ) → Exec Work (Unit {0})
on_data (ok words) w = (ok tt, record w { data_chunk = words })
on_data (err e) w = (err e, w)

abbrev pub on_dump : Result (List ℕ) → Exec Work (Unit {0})
on_dump (ok words) w = (ok tt, record w { dump = words })
on_dump (err e) w = (err e, w)

-- dump[k] += data_chunk[rnum(lfsr)]++
unfoldable pub touch : ℕ → ℕ → Exec Work (Unit {0})
touch working_set_size k = do
  r ← rnum working_set_size
  w ← gets (λ w. w)
  v ← of_result (load r w.data_chunk)
  on_data (store r (u64 (v + 1)) w.data_chunk)
  x ← of_result (load k w.dump)
  on_dump (store k (u64 (x + v)) w.dump)

-- The lines of the inner loop from `k` on, with their number: there are 100.
unfoldable pub touch_each : ℕ → ℕ → ℕ → Exec Work (Unit {0})
touch_each working_set_size zero k = pure tt
touch_each working_set_size (suc n) k =
    touch working_set_size k >> touch_each working_set_size n (k + 1)

-- The inner loop, with its rounds.
unfoldable pub touch_loop : ℕ → ℕ → Exec Work (Unit {0})
touch_loop working_set_size zero = pure tt
touch_loop working_set_size (suc n) =
    touch_each working_set_size 100 0 >> touch_loop working_set_size n

unfoldable pub assign_round : ℕ → Exec Work (Unit {0})
assign_round working_set_size = do
  touch_loop working_set_size (working_set_size / 800)
  w ← gets (λ w. w)
  on_data (copy_halves working_set_size w.data_chunk)

-- The register begins with the microseconds of the time.
abbrev pub seed : ℕ → Work → Work
seed tv_usec w = record w { lfsr = tv_usec % 11 + 1 }

-- The outer loop, with its rounds.
unfoldable pub assign_rounds : ℕ → ℕ → Exec Work (Unit {0})
assign_rounds working_set_size zero = pure tt
assign_rounds working_set_size (suc n) =
    assign_round working_set_size >> assign_rounds working_set_size n

unfoldable pub single_static_assignment : ℕ → ℕ → ℕ → Exec Work (Unit {0})
single_static_assignment working_set_size loop_num tv_usec w =
    assign_rounds working_set_size loop_num (seed tv_usec w)
