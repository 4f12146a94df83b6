-- ===== src/TimeWheel/Clock.antt =====
-- `takeAllTimeout` against a clock that never wraps: the wheel turns once for each millisecond.
use grit.Common.{
  ltb-true, All, total, word_mod, sign_bit, to_int, ℕ, zero, suc, ◌+◌, ◌-◌, ◌%◌, ◌^◌, ◌<◌, ◌≡◌,
  refl, sym, ap, ◌∙◌, List, [], ◌∷◌, ◌++◌, map, append_assoc, arith,
}
use grit.TimeWheel.{TimeWheel, time_wheel, add_timer, ticks, sign_extend, take_all_timeout}
use native.Mathlib.Nat.{add-zero, zero-add}
use grit.TimeWheel.Due.{IsValid, due, callback}
use grit.TimeWheel.Turning.{ticks-IsValid, scheduled, ticks-scheduled, due-ticks}

sign_extend-low : (t : ℕ) → sign_extend (to_int t) % word_mod ≡ t % word_mod
unfolding sign_extend
sign_extend-low t = ground arith

sign_extend-lt : (t : ℕ) → sign_extend (to_int t) < 2 ^ 64
unfolding sign_extend
sign_extend-lt t = ground arith

elapsed :
    (s t e : ℕ)
    → s % word_mod ≡ t % word_mod
    → s < 2 ^ 64
    → e < sign_bit
    → to_int ((sign_extend (to_int (t + e)) + 2 ^ 64 - s) % 2 ^ 64) ≡ e
elapsed s t e same small h = omega (arith, sign_extend-low (t + e), sign_extend-lt (t + e))

module _ {A : Type 0} where
  -- The wheel last looked at the clock at time `t`: `starttime_` agrees with it in the low 32 bits.
  abbrev pub InStep : TimeWheel A → ℕ → Type 0
  InStep w t = (w.starttime % word_mod ≡ t % word_mod) × (w.starttime < 2 ^ 64)

  -- A poll `e` milliseconds after the last one makes `e` ticks, whatever has wrapped in between, as
  -- long as `e` fits a non-negative `int`; and it is in step with the clock again.
  pub take_all_timeout-ticks :
      (w : TimeWheel A) (t e : ℕ)
      → InStep w t
      → e < sign_bit
      → (take_all_timeout w (t + e)
          ≡ (record (ticks e w).0 { starttime = sign_extend (to_int (t + e)) }, (ticks e w).1))
        × InStep (take_all_timeout w (t + e)).0 (t + e)
  unfolding take_all_timeout
  take_all_timeout-ticks w t e (same, small) h = (
    rw (elapsed w.starttime t e same small h, ltb-true h) refl,
    (sign_extend-low (t + e), sign_extend-lt (t + e)),
  )

  pub InStep-add_timer :
      (w : TimeWheel A) (timeout t : ℕ) (fun : A)
      → InStep w t
      → InStep (add_timer w timeout fun).0 t
  unfolding add_timer
  InStep-add_timer w timeout t fun step = step

  -- The poller: the clock advances by each of the gaps in turn, and is looked at after each.
  pub polls : TimeWheel A → ℕ → List ℕ → TimeWheel A × List A
  polls w t [] = (w, [])
  polls w t (e ∷ gaps) =
      let (w', fired) = take_all_timeout w (t + e) in
      let (w'', later) = polls w' (t + e) gaps in (w'', fired ++ later)

  scheduled-append :
      (w : TimeWheel A) (d j k : ℕ)
      → scheduled w d (j + k) ≡ scheduled w d j ++ scheduled w (d + j) k
  unfolding scheduled
  scheduled-append w d zero k = rw (zero-add, add-zero)
  scheduled-append w d (suc j) k =
      let e : suc j + k ≡ suc (j + k) = omega arith in
      let f : d + suc j ≡ suc d + j = omega arith in
      rw (e, f, scheduled-append w (suc d) j k)
        (sym (append_assoc (map callback (due w d)) (scheduled w (suc d) j) _))

  scheduled-due :
      (w w' : TimeWheel A) (e d k : ℕ)
      → ((i : ℕ) → due w' i ≡ due w (e + i))
      → scheduled w' d k ≡ scheduled w (e + d) k
  unfolding scheduled
  scheduled-due w w' e d zero h = refl
  scheduled-due w w' e d (suc k) h =
      rw (h d, scheduled-due w w' e (suc d) k h)
        (ap (λ (i : ℕ). map callback (due w (e + d)) ++ scheduled w i k) (omega arith))

  poll-IsValid : (w : TimeWheel A) (s : ℕ) → IsValid w → IsValid (record w { starttime = s })
  poll-IsValid w s v = record {
    some_slots = v.some_slots;
    few_slots = v.few_slots;
    width = v.width;
    current = v.current;
    fits = v.fits;
    rising = v.rising;
  }

  poll-due : (w : TimeWheel A) (s d : ℕ) → due (record w { starttime = s }) d ≡ due w d
  unfolding due
  poll-due w s d = refl

  -- A well-formed wheel that is in step with the clock, polled at any moments less than 2 ^ 31 ms
  -- apart, runs what is due in the time that has passed: no tick is lost and none is made up,
  -- however the time is divided among the polls.
  pub polls-scheduled :
      (w : TimeWheel A) (t : ℕ) (gaps : List ℕ)
      → IsValid w
      → InStep w t
      → All (λ e. e < sign_bit) gaps
      → (polls w t gaps).1 ≡ scheduled w 0 (total gaps)
  unfolding polls scheduled total
  polls-scheduled w t [] v s h = refl
  polls-scheduled w t (e ∷ gaps) v s h =
      let (run, later) = take_all_timeout-ticks w t e s h.0 in
      let w' = record (ticks e w).0 { starttime = sign_extend (to_int (t + e)) } in
      let rest : (polls w' (t + e) gaps).1 ≡ scheduled w (e + 0) (total gaps) =
        polls-scheduled w' (t + e) gaps (poll-IsValid _ _ (ticks-IsValid e w v)) (rw run at later)
          h.1
        ∙ scheduled-due w w' e 0 (total gaps)
            (λ i. poll-due (ticks e w).0 _ i ∙ due-ticks e w i v) in
      let here : 0 + e ≡ e + 0 = omega arith in
      rw (run, ticks-scheduled e w v, rest, scheduled-append w 0 e (total gaps), here) refl

pub InStep-time_wheel :
    (A : Type 0) (n now : ℕ) → now < 2 ^ 64 → InStep (time_wheel {A = A} n now) now
unfolding time_wheel
InStep-time_wheel A n now h = (refl, h)
