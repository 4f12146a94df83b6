-- ===== src/TimeWheel/Tests.antt =====
-- A wheel of four slots at work, and the theorems about wheels at concrete inputs.
use grit.Common.{
  run_all, Trace, ◌==◌, if◌then◌else◌, total, sign_bit, ℕ, ◌/◌, ◌<◌, ◌≡◌, refl, List, [], ◌∷◌, ◌++◌,
  map, arith, fault, dangling,
}
use grit.TimeWheel.{TimeWheel, time_wheel, add_timer, tick, ticks, take_all_timeout}
use grit.TimeWheel.Due.{due, IsValid, callback, time_wheel-IsValid}
use grit.TimeWheel.Valid.{add_timer-IsValid}
use grit.TimeWheel.Turning.{scheduled, tick-ticks-add_timer}
use grit.TimeWheel.Deadlines.{Command, after, cancel, pass, run_list}
use grit.TimeWheel.Ledgers.{new_ledger, obey, IsOwned, Stale, obey-Trace}
use grit.TimeWheel.Clock.{InStep, polls, polls-scheduled}

-- Callbacks are numbers here. The clock shows 100.
abbrev small_wheel : TimeWheel ℕ
small_wheel = time_wheel 4 100

small_wheel-IsValid : IsValid small_wheel
small_wheel-IsValid = time_wheel-IsValid 4 100 (omega arith) (omega arith)

abbrev armed : TimeWheel ℕ
armed = (add_timer small_wheel 5 77).0

armed-IsValid : IsValid armed
armed-IsValid = add_timer-IsValid small_wheel 5 77 small_wheel-IsValid (omega arith)

fires_on_time : (ticks 6 armed).1 ≡ 77 ∷ []
unfolding ticks tick add_timer time_wheel
fires_on_time = refl

waits_before : (ticks 5 armed).1 ≡ []
unfolding ticks tick add_timer time_wheel
waits_before = refl

polled : (take_all_timeout armed 106).1 ≡ 77 ∷ []
unfolding take_all_timeout ticks tick add_timer time_wheel
polled = refl

small_nslots : 6 / armed.nslots < sign_bit
unfolding add_timer time_wheel
small_nslots = omega arith

armed-InStep : InStep armed 100
unfolding add_timer time_wheel
armed-InStep = omega arith

tick-ticks-add_timer_example :
    (tick (ticks 6 (add_timer armed 6 88).0).0).1
    ≡ (if 6 == 6 then map callback (due armed 6) ++ 88 ∷ [] else map callback (due armed 6))
tick-ticks-add_timer_example = tick-ticks-add_timer armed 6 6 88 armed-IsValid small_nslots

polls-scheduled_example : (polls armed 100 (3 ∷ 4 ∷ [])).1 ≡ scheduled armed 0 (total (3 ∷ 4 ∷ []))
polls-scheduled_example =
    polls-scheduled armed 100 (3 ∷ 4 ∷ []) armed-IsValid armed-InStep (omega arith)

-- Two timers, of which one is cancelled, and one that comes in between.
abbrev busy : List (Command ℕ)
busy = after 2 70 ∷ after 1 71 ∷ pass ∷ cancel 1 ∷ after 1 72 ∷ pass ∷ pass ∷ []

run_list-busy : run_list busy 0 [] ≡ [] ∷ [] ∷ (70 ∷ 72 ∷ []) ∷ []
unfolding run_list
run_list-busy = refl

-- A timer runs, another is cancelled, and the first is cancelled after it has been deleted.
abbrev late_cancel : List (Command ℕ)
late_cancel = after 0 70 ∷ after 6 71 ∷ pass ∷ cancel 1 ∷ cancel 0 ∷ []

obey-Trace_example : Trace obey IsOwned Stale late_cancel (new_ledger 4 100)
obey-Trace_example = obey-Trace 4 100 late_cancel (omega arith)

late_cancel-dangling : run_all obey late_cancel (new_ledger 4 100) ≡ fault dangling
unfolding run_all obey new_ledger time_wheel add_timer
late_cancel-dangling = refl
