-- ===== src/TimeWheel/Halves.antt =====
-- A tick in two halves, the loop over the current slot and the step to the next one, and a timer
-- that another thread adds in between.
use grit.Common.{
  eq_false, length, get_or, set, get_or-set, set-set, ℕ, ◌+◌, ◌%◌, ◌<◌, ◌≡◌, refl, sym, ◌≢◌, List,
  [], ◌∷◌, ◌++◌, arith,
}
use native.Mathlib.Nat.{mod-lt, add-mod-mod}
use grit.TimeWheel.{TimeWheel, add_timer, turn, tick}
use grit.TimeWheel.Modular.{home-eq}
use grit.TimeWheel.Due.{IsValid}

elsewhere : (n c t : ℕ) → 0 < n → c < n → t % n ≢ 0 → c ≢ (c + t % n) % n
elsewhere n c t pos lt apart same =
    ground (arith, home-eq n c t pos lt, add-mod-mod c t n, mod-lt t {m = n} pos)

module _ {A : Type 0} where
  -- The loop, which writes to the current slot only.
  unfoldable pub run_slot : TimeWheel A → TimeWheel A × List A
  unfolding turn
  run_slot w =
      let (kept, fired) = turn (get_or w.slots w.curslot []) in
      (record w { slots = set w.slots w.curslot kept }, fired)

  unfoldable pub advance : TimeWheel A → TimeWheel A
  advance w = record w { curslot = (w.curslot + 1) % w.nslots }

  pub tick-run_slot : (w : TimeWheel A) → tick w ≡ (advance (run_slot w).0, (run_slot w).1)
  unfolding tick run_slot advance
  tick-run_slot w = refl

  -- A timer whose timeout is no multiple of the number of slots goes to another slot than the one that
  -- is being turned: it makes no difference whether it is added before a tick of a well-formed wheel, or
  -- by another thread after the loop of that tick and before the step to the next slot.
  pub tick-add_timer_meanwhile :
      (w : TimeWheel A) (timeout : ℕ) (fun : A)
      → IsValid w
      → timeout % w.nslots ≢ 0
      → (advance (add_timer (run_slot w).0 timeout fun).0, (run_slot w).1)
        ≡ tick (add_timer w timeout fun).0
  unfolding advance add_timer run_slot tick
  tick-add_timer_meanwhile w timeout fun v apart =
      let n = w.nslots in
      let c = w.curslot in
      let j = (c + timeout % n) % n in
      let away : c ≢ j = elsewhere n c timeout v.some_slots v.current apart in
      let here : c < length w.slots = omega (arith, v.width, v.current) in
      let there : j < length w.slots =
        omega (arith, v.width, mod-lt (c + timeout % n) v.some_slots) in
      rw
        (
          get_or-set w.slots c j (turn (get_or w.slots c [])).0 [] here,
          eq_false {a = c} {b = j} away,
          get_or-set w.slots j c (get_or w.slots j [] ++ (add_timer w timeout fun).1 ∷ []) [] there,
          eq_false {a = j} {b = c} (λ e. away (sym e)),
          set-set w.slots c j (turn (get_or w.slots c [])).0
              (get_or w.slots j [] ++ (add_timer w timeout fun).1 ∷ []) away,
        )
        refl
