-- ===== src/TimeWheel/Turning.antt =====
-- A tick runs the callbacks that are due now, and brings all others one tick nearer.
use grit.Common.{
  ◌==◌, if◌then◌else◌, eq_true, eq_false, length, get_or-set, All, sign_bit, ℕ, zero, suc, ◌+◌, ◌/◌,
  ◌%◌, ◌<◌, ◌≡◌, refl, ap, ◌∙◌, inl, inr, List, [], ◌∷◌, ◌++◌, map, arith,
}
use mathlib.Core.Logic.{Ne-symm}
use mathlib.Core.List.{map-append}
use native.Mathlib.Nat.{add-zero, zero-add, zero-div, mod-eq_of_lt}
use grit.TimeWheel.Modular.{slot-suc, slot-shift}
use grit.TimeWheel.{Timer, TimeWheel, add_timer, turn, tick, ticks}
use grit.TimeWheel.Due.{waiting, callback, due, Fits, IsValid, due-add_timer}
use grit.TimeWheel.Valid.{tick-IsValid, add_timer-IsValid}

module _ {A : Type 0} where
  turn-fired :
      (i next : ℕ) (ts : List (Timer A))
      → All (Fits i next) ts
      → (turn ts).1 ≡ map callback (waiting 0 ts)
  unfolding turn
  turn-fired i next [] h = refl
  turn-fired i next (t ∷ ts) h = ground (arith, turn-fired i next ts h.1, h.0.turns)

  turn-kept :
      (i next k : ℕ) (ts : List (Timer A))
      → All (Fits i next) ts
      → waiting k (turn ts).0 ≡ waiting (k + 1) ts
  unfolding turn
  turn-kept i next k [] h = refl
  turn-kept i next k (t ∷ ts) h = ground (arith, turn-kept i next k ts h.1, h.0.turns)

  pub tick-fired : (w : TimeWheel A) → IsValid w → (tick w).1 ≡ map callback (due w 0)
  unfolding tick due
  tick-fired w v =
      rw (add-zero w.curslot, zero-div w.nslots, mod-eq_of_lt v.current)
        (turn-fired w.curslot w.next_address _ (v.fits w.curslot))

  -- In a well-formed wheel, what was due in d + 1 ticks is due in d ticks after a tick, in the same
  -- order.
  pub due-tick : (w : TimeWheel A) (d : ℕ) → IsValid w → due (tick w).0 d ≡ due w (suc d)
  unfolding tick due
  due-tick w d v =
      let n = w.nslots in
      let c = w.curslot in
      let within : c < length w.slots = omega (arith, v.width, v.current) in
      rw (slot-shift n c d, get_or-set w.slots c ((c + suc d) % n) _ [] within)
        (elim (slot-suc n c d v.some_slots v.current) [
          | inl (elsewhere, same) ↦ rw (eq_false (Ne-symm elsewhere), same) refl
          | inr (here, more) ↦
              rw (here, eq_true {a = c} refl, more)
                (turn-kept c w.next_address (d / n) _ (v.fits c))
        ])

  -- The callbacks that run in the ticks from `d` on, `k` of them, by what is due in `w`.
  unfoldable pub scheduled : TimeWheel A → ℕ → ℕ → List A
  scheduled w d zero = []
  scheduled w d (suc k) = map callback (due w d) ++ scheduled w (suc d) k

  scheduled-tick :
      (w : TimeWheel A) (d k : ℕ) → IsValid w → scheduled (tick w).0 d k ≡ scheduled w (suc d) k
  unfolding scheduled
  scheduled-tick w d zero v = refl
  scheduled-tick w d (suc k) v = rw (due-tick w d v, scheduled-tick w (suc d) k v)

  pub ticks-IsValid : (k : ℕ) (w : TimeWheel A) → IsValid w → IsValid (ticks k w).0
  unfolding ticks
  ticks-IsValid zero w v = v
  ticks-IsValid (suc k) w v = ticks-IsValid k (tick w).0 (tick-IsValid w v)

  -- `k` ticks of a well-formed wheel run exactly the callbacks that are due in them, tick by tick.
  pub ticks-scheduled : (k : ℕ) (w : TimeWheel A) → IsValid w → (ticks k w).1 ≡ scheduled w 0 k
  unfolding ticks scheduled
  ticks-scheduled zero w v = refl
  ticks-scheduled (suc k) w v =
      rw (tick-fired w v, ticks-scheduled k (tick w).0 (tick-IsValid w v), scheduled-tick w 0 k v)

  -- and leave the others in place.
  pub due-ticks :
      (k : ℕ) (w : TimeWheel A) (d : ℕ) → IsValid w → due (ticks k w).0 d ≡ due w (k + d)
  unfolding ticks
  due-ticks zero w d v = rw zero-add
  due-ticks (suc k) w d v =
      due-ticks k (tick w).0 d (tick-IsValid w v) ∙ due-tick w (k + d) v ∙ ap (due w) (omega arith)

  -- In a well-formed wheel of n slots, a timer that is added with a timeout of `t`, less than 2 ^
  -- 31 * n, runs in the tick after `t` more ticks, behind the callbacks that were due in that tick,
  -- and in no other; the other callbacks keep their ticks.
  pub tick-ticks-add_timer :
      (w : TimeWheel A) (t k : ℕ) (fun : A)
      → IsValid w
      → t / w.nslots < sign_bit
      → (tick (ticks k (add_timer w t fun).0).0).1
        ≡ (if k == t then map callback (due w k) ++ fun ∷ [] else map callback (due w k))
  tick-ticks-add_timer w t k fun v h =
      let w' = (add_timer w t fun).0 in
      let v' = add_timer-IsValid w t fun v h in
      tick-fired (ticks k w').0 (ticks-IsValid k w' v')
      ∙ ap (map callback)
          (due-ticks k w' 0 v' ∙ ap (due w') (add-zero k) ∙ due-add_timer w t k fun v h)
      ∙ ground (arith, map-append callback (due w k) ((w.next_address, fun) ∷ []))
