-- ===== src/TimeWheel.antt =====
-- base/timeWheel.h: Timer and TimeWheel. A callback is a value of `A`: the wheel only stores it and
-- hands it over when its time has come, in the order of the calls. The number of slots is positive
-- (log players ask for 6000). The thread that polls the clock is the sequence of calls of
-- `take_all_timeout`, each with the time that the clock shows.
mod Tests
pub mod Modular
pub mod Due
pub mod Valid
pub mod Turning
pub mod Clock
pub mod Cancel
pub mod Deadlines
pub mod Programs
pub mod Halves
pub mod Owners
pub mod Ledgers
pub mod Thread
use grit.Common.{
  ltb, ◌==◌, if◌then◌else◌, get_or, set, replicate, sign_bit, to_int, decr, slt, ℕ, zero, suc, ◌+◌,
  ◌-◌, ◌*◌, ◌/◌, ◌%◌, ◌^◌, Option, none, some, List, [], ◌∷◌, ◌++◌,
}

-- `rotations_` and `slot_` are `int`. `address` is the value of the pointer that `addTimer` returns.
pub record Timer (A : Type 0) : Type 0 where
  pub rotations : ℕ
  pub slot : ℕ
  pub fun : A
  pub address : ℕ

pub record TimeWheel (A : Type 0) : Type 0 where
  pub nslots : ℕ
  pub curslot : ℕ
  pub slots : List (List (Timer A))
  pub starttime : ℕ
  pub next_address : ℕ

-- `time` is what the clock shows, an unsigned long long; `int now` keeps its low 32 bits, and is
-- extended by its sign where it meets `starttime_`.
pub sign_extend : ℕ → ℕ
sign_extend x = if ltb x sign_bit then x else x + (2 ^ 64 - 2 ^ 32)

module _ {A : Type 0} where
  -- The constructor, at the time `now`.
  unfoldable pub time_wheel : ℕ → ℕ → TimeWheel A
  time_wheel nslots now = record {
    nslots = nslots;
    curslot = 0;
    slots = replicate nslots [];
    starttime = now;
    next_address = 0;
  }

  -- `timeout` is unsigned, so the test `timeout < 0` never holds.
  pub add_timer : TimeWheel A → ℕ → A → TimeWheel A × Timer A
  add_timer w timeout fun =
      let slot = (w.curslot + timeout % w.nslots) % w.nslots in
      let timer : Timer A = record {
        rotations = to_int (timeout / w.nslots);
        slot = slot;
        fun = fun;
        address = w.next_address;
      } in
      (
        record w {
          slots = set w.slots slot (get_or w.slots slot [] ++ timer ∷ []);
          next_address = w.next_address + 1;
        },
        timer,
      )

  -- std::find and erase: the first entry that is the given pointer goes.
  pub erase_timer : ℕ → List (Timer A) → List (Timer A)
  erase_timer address [] = []
  erase_timer address (t ∷ ts) = if t.address == address then ts else t ∷ erase_timer address ts

  -- The pointer is null, or comes with what it points to.
  pub del_timer : TimeWheel A → Option (Timer A) → TimeWheel A
  unfolding erase_timer
  del_timer w none = w
  del_timer w (some timer) = record w {
    slots = set w.slots timer.slot (erase_timer timer.address (get_or w.slots timer.slot []));
  }

  -- The loop over the current slot: the timers that stay, and the callbacks that ran.
  pub turn : List (Timer A) → List (Timer A) × List A
  turn [] = ([], [])
  turn (t ∷ ts) =
      let (kept, fired) = turn ts in
      if slt 0 t.rotations
      then (record t { rotations = decr t.rotations } ∷ kept, fired)
      else (kept, t.fun ∷ fired)

  pub tick : TimeWheel A → TimeWheel A × List A
  unfolding turn
  tick w =
      let (kept, fired) = turn (get_or w.slots w.curslot []) in
      (record w { slots = set w.slots w.curslot kept; curslot = (w.curslot + 1) % w.nslots }, fired)

  -- The loop of `takeAllTimeout`, with the rounds that are left.
  pub ticks : ℕ → TimeWheel A → TimeWheel A × List A
  ticks zero w = (w, [])
  ticks (suc k) w =
      let (w', fired) = tick w in let (w'', later) = ticks k w' in (w'', fired ++ later)

  pub take_all_timeout : TimeWheel A → ℕ → TimeWheel A × List A
  unfolding sign_extend
  take_all_timeout w time =
      let now = to_int time in
      let cnt = to_int ((sign_extend now + 2 ^ 64 - w.starttime) % 2 ^ 64) in
      let (w', fired) = ticks (if ltb cnt sign_bit then cnt else 0) w in
      (record w' { starttime = sign_extend now }, fired)

-- CLOCK_MONOTONIC_COARSE in milliseconds, as an unsigned long long.
pub get_current_millisecs : ℕ → ℕ → ℕ
get_current_millisecs tv_sec tv_nsec = (tv_sec * 1000 + tv_nsec / (1000 * 1000)) % 2 ^ 64
