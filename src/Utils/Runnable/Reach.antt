-- ===== src/Utils/Runnable/Reach.antt =====
-- The states that a caller and the looping thread can bring a `Runnable` to.
use libvsf.Prelude.{
  ◌≡◌, refl, Bool, true, false, ◌&&◌, not, arith, if◌then◌else◌, Bool-cases, inl, inr,
}
use libvsf.Prelude.Exec.{ok}
use libvsf.Utils.Runnable.{Thread, Runnable, idle, joinable, start, begin_stop, end_stop, end_run}

-- A step of the caller, which does nothing while it waits, or of the thread.
pub data Step : Runnable → Runnable → Type 0 where
  started : (r r' : Runnable) → r.waits ≡ false → start r ≡ ok r' → Step r r'
  stop_begun : (r : Runnable) → r.waits ≡ false → Step r (begin_stop r)
  stop_ended : (r : Runnable) → r.waits ≡ true → r.runs ≡ false → Step r (end_stop r)
  run_ended : (r : Runnable) → r.runs ≡ true → r.stop ≡ true → Step r (end_run r)

pub data Reach : Runnable → Type 0 where
  at_first : Reach idle
  after : (r r' : Runnable) → Reach r → Step r r' → Reach r'

-- What holds of a state that is reached: the flag is down exactly while the loop is wanted, and then
-- there is one thread, which runs; a thread that has not been joined is waited for or wanted.
abbrev pub consistent : Runnable → Bool
consistent r =
    if r.stop
    then if r.waits then joinable r else not (joinable r) && not r.runs
    else joinable r && r.runs && not r.waits

consistent-start :
    (r r' : Runnable)
    → start r ≡ ok r'
    → consistent r ≡ true
    → r.waits ≡ false
    → consistent r' ≡ true
unfolding start joinable
consistent-start r r' e h w = ground (arith, e, h, w)

consistent-Step : (r r' : Runnable) → Step r r' → consistent r ≡ true → consistent r' ≡ true
unfolding joinable begin_stop end_stop end_run
consistent-Step r r' (started _ _ w e) h = consistent-start r r' e h w
consistent-Step r _ (stop_begun _ w) h = ground (arith, h, w)
consistent-Step r _ (stop_ended _ w e) h = ground (arith, h, w, e)
consistent-Step r _ (run_ended _ e s) h = ground (arith, h, e, s)

consistent-reach : (r : Runnable) → Reach r → consistent r ≡ true
unfolding joinable
consistent-reach _ at_first = refl
consistent-reach r (after r0 _ reached step) =
    consistent-Step r0 r step (consistent-reach r0 reached)

-- In every state that is reached in which the caller does not wait: a start gives a thread that runs
-- and never ends the program, and the thread is joinable exactly if the loop is wanted.
pub reach-start :
    (r : Runnable)
    → Reach r
    → r.waits ≡ false
    → ((r' : Runnable) × (start r ≡ ok r') × (r'.runs ≡ true) × (joinable r' ≡ true))
      × (joinable r ≡ not r.stop)
unfolding start joinable
reach-start r reached w =
    let h = consistent-reach r reached in
    (
      (
        (if r.stop
            then record r { stop = false; thread = Thread.joinable_thread; runs = true }
            else r),
        ground (arith, h, w),
        ground (arith, h, w),
        ground (arith, h, w),
      ),
      ground (arith, h, w),
    )

-- A stop that has begun can end: from every state that is reached in which the caller waits, steps of
-- the thread and then of the caller lead to a state in which it does not wait, and no thread runs.
pub reach-stop :
    (r : Runnable)
    → Reach r
    → r.waits ≡ true
    → (r' : Runnable) × Reach r' × (r'.waits ≡ false) × (r'.runs ≡ false) × (joinable r' ≡ false)
unfolding joinable end_stop end_run
reach-stop r reached w =
    let down : r.stop ≡ true = ground (arith, consistent-reach r reached, w) in
    elim (Bool-cases r.runs) [
      | inr e ↦ (end_stop r, after r (end_stop r) reached (stop_ended r w e), refl, e, refl)
      | inl e ↦ (
        end_stop (end_run r),
        after (end_run r) (end_stop (end_run r)) (after r (end_run r) reached (run_ended r e down))
            (stop_ended (end_run r) w refl),
        refl,
        refl,
        refl,
      )
    ]
