-- ===== src/Utils/Microbench/Tests.antt =====
-- The theorems on the benchmark applied to four words.
use libvsf.Prelude.{ℕ, ◌/◌, ◌≡◌, refl, List, [], ◌∷◌, arith, length, get_elem?}
use libvsf.Prelude.Exec.{ok}
use libvsf.Utils.StrTools.{Text}
use libvsf.Utils.Numbers.{atoi, stoi_signed, skip_space, stoi, digits_from}
use libvsf.Utils.Microbench.{parse_types}
use libvsf.Utils.Microbench.Load.{stream_access_bandwidth, copy_halves, copy_up, load, store}
use libvsf.Utils.Microbench.Streams.{streamed, stream_access_bandwidth_lem}
use libvsf.Utils.Microbench.Args.{
  Settings, defaults, argument_of, set_value, read_args, settings_of, thread_work,
}
use libvsf.Utils.Microbench.Valid.{thread_work-settings_of}

abbrev four : List ℕ
four = 1 ∷ 2 ∷ 3 ∷ 4 ∷ []

streams_four : stream_access_bandwidth 2 4 four ≡ ok (6 ∷ 7 ∷ 7 ∷ 8 ∷ [])
unfolding stream_access_bandwidth copy_halves copy_up load store
streams_four = refl

stream_access_bandwidth_lem_example :
    (words : List ℕ) × (stream_access_bandwidth 2 4 four ≡ ok words)
    × (length words ≡ length four)
    × ((i : ℕ) → get_elem? words i ≡ streamed 1 (4 / 2) four i)
stream_access_bandwidth_lem_example = stream_access_bandwidth_lem 1 4 four (omega arith)

-- "-w 4 -l 2 -wt s"
abbrev args : List Text
args =
    (b'-' ∷ b'w' ∷ [])
    ∷ (b'4' ∷ [])
    ∷ (b'-' ∷ b'l' ∷ [])
    ∷ (b'2' ∷ [])
    ∷ (b'-' ∷ b'w' ∷ b't' ∷ [])
    ∷ (b's' ∷ [])
    ∷ []

abbrev settings : Settings
settings = record defaults { working_set_size = 4; loop_num = 2; workload_type = 1 }

settings_of-args : settings_of args ≡ ok settings
unfolding settings_of read_args argument_of set_value atoi stoi_signed skip_space stoi digits_from
    parse_types
settings_of-args = refl

thread_work-settings_of_example :
    (words : List ℕ) × (thread_work settings 3 ≡ ok words) × (length words ≡ 4)
thread_work-settings_of_example =
    thread_work-settings_of args settings 3 settings_of-args (omega arith)
