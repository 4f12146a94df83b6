-- ===== src/TimeWheel/Cancel.antt =====
-- `delTimer`: a timer that is taken out before it ran leaves no trace.
use grit.Common.{
  ◌==◌, Bool-cases, eq-cases, eq_true, eq_false, length, keep, get_or-set, keep-snoc, All,
  All-append, All-map, sign_bit, slt, ℕ, zero, suc, ◌+◌, ◌/◌, ◌%◌, ◌≤◌, ◌<◌, ◌≡◌, refl, sym, ◌∙◌,
  ◌≢◌, inl, inr, Bool, not, some, List, [], ◌∷◌, arith,
}
use native.Mathlib.Nat.{mod-lt}
use grit.TimeWheel.{Timer, TimeWheel, add_timer, erase_timer, del_timer, turn, tick, ticks}
use grit.TimeWheel.Due.{slot_at, waiting, due, Fits, Rising, IsValid, due-add_timer}
use grit.TimeWheel.Valid.{add_timer-IsValid, tick-IsValid, slot-set}
use grit.TimeWheel.Turning.{ticks-IsValid, due-ticks}

module _ {A : Type 0} where
  abbrev pub other : ℕ → ℕ × A → Bool
  other a h = not (h.0 == a)

  without-Rising :
      (a q low : ℕ) (ts : List (Timer A))
      → a < low
      → Rising low ts
      → keep (other a) (waiting q ts) ≡ waiting q ts
  without-Rising a q low [] h r = refl
  without-Rising a q low (t ∷ ts) h r = ground (arith, without-Rising a q (suc t.address) ts)

  waiting-erase_timer :
      (a q low : ℕ) (ts : List (Timer A))
      → Rising low ts
      → waiting q (erase_timer a ts) ≡ keep (other a) (waiting q ts)
  unfolding erase_timer
  waiting-erase_timer a q low [] r = refl
  waiting-erase_timer a q low (t ∷ ts) r =
      ground (
        arith,
        waiting-erase_timer a q (suc t.address) ts r.1,
        without-Rising a q (suc t.address) ts,
      )

  -- Entries at address `a` stand in slot `s` only.
  abbrev pub AtHome : ℕ → ℕ → Timer A → Type 0
  AtHome a s t = t.address ≡ a → t.slot ≡ s

  without-elsewhere :
      (a s i next q : ℕ) (ts : List (Timer A))
      → s ≢ i
      → All (Fits i next) ts
      → All (AtHome a s) ts
      → keep (other a) (waiting q ts) ≡ waiting q ts
  without-elsewhere a s i next q [] n f h = refl
  without-elsewhere a s i next q (t ∷ ts) n f h =
      ground (arith, without-elsewhere a s i next q ts n f.1 h.1, h.0, f.0.in_slot)

  pub due-del_timer :
      (w : TimeWheel A) (timer : Timer A) (d : ℕ)
      → IsValid w
      → timer.slot < w.nslots
      → ((i : ℕ) → All (AtHome timer.address timer.slot) (slot_at w i))
      → due (del_timer w (some timer)) d ≡ keep (other timer.address) (due w d)
  unfolding due del_timer
  due-del_timer w timer d v h home =
      let i = (w.curslot + d) % w.nslots in
      let q = d / w.nslots in
      let within : timer.slot < length w.slots = omega (arith, v.width) in
      rw (get_or-set w.slots timer.slot i _ [] within) (elim (eq-cases timer.slot i) [
        | inl e ↦ rw (eq_true e, e) (waiting-erase_timer timer.address q 0 _ (v.rising i))
        | inr n ↦ rw (eq_false n) (
            sym (
              without-elsewhere timer.address timer.slot i w.next_address q _ n (v.fits i)
                (home i)))
      ])

  turn-AtHome : (a s : ℕ) (ts : List (Timer A)) → All (AtHome a s) ts → All (AtHome a s) (turn ts).0
  unfolding turn
  turn-AtHome a s [] h = tt
  turn-AtHome a s (t ∷ ts) h = elim (Bool-cases (slt 0 t.rotations)) [
    | inl more ↦ rw more (h.0, turn-AtHome a s ts h.1)
    | inr none_left ↦ rw none_left (turn-AtHome a s ts h.1)
  ]

  pub tick-AtHome :
      (a s : ℕ) (w : TimeWheel A)
      → IsValid w
      → ((i : ℕ) → All (AtHome a s) (slot_at w i))
      → (i : ℕ) → All (AtHome a s) (slot_at (tick w).0 i)
  unfolding tick
  tick-AtHome a s w v h =
      slot-set (λ i. All (AtHome a s)) w w.curslot _ (omega (arith, v.width, v.current)) h
        (turn-AtHome a s _ (h w.curslot))

  ticks-AtHome :
      (k a s : ℕ) (w : TimeWheel A)
      → IsValid w
      → ((i : ℕ) → All (AtHome a s) (slot_at w i))
      → (i : ℕ) → All (AtHome a s) (slot_at (ticks k w).0 i)
  unfolding ticks
  ticks-AtHome zero a s w v h = h
  ticks-AtHome (suc k) a s w v h =
      ticks-AtHome k a s (tick w).0 (tick-IsValid w v) (tick-AtHome a s w v h)

  pub add_timer-AtHome :
      (w : TimeWheel A) (t : ℕ) (fun : A)
      → IsValid w
      → (i : ℕ)
      → All (AtHome w.next_address (add_timer w t fun).1.slot) (slot_at (add_timer w t fun).0 i)
  unfolding add_timer
  add_timer-AtHome w t fun v =
      let s = (w.curslot + t % w.nslots) % w.nslots in
      let within : s < length w.slots =
        omega (arith, v.width, mod-lt (w.curslot + t % w.nslots) v.some_slots) in
      let old = λ (i : ℕ).
        All-map (Fits i w.next_address) (AtHome w.next_address s) (slot_at w i)
          (λ x f e. absurd (omega arith)) (v.fits i) in
      slot-set (λ i. All (AtHome w.next_address s)) w s _ within old
        (All-append (AtHome w.next_address s) (slot_at w s) _ (old s) ((λ e. refl), tt))

  nslots-ticks : (k : ℕ) (w : TimeWheel A) → (ticks k w).0.nslots ≡ w.nslots
  unfolding ticks tick
  nslots-ticks zero w = refl
  nslots-ticks (suc k) w = nslots-ticks k (tick w).0

  pub add_timer-handle :
      (w : TimeWheel A) (t : ℕ) (fun : A)
      → 0 < w.nslots
      → ((add_timer w t fun).1.address ≡ w.next_address)
        × ((add_timer w t fun).1.slot < w.nslots)
        × ((add_timer w t fun).0.nslots ≡ w.nslots)
  unfolding add_timer
  add_timer-handle w t fun h = (refl, mod-lt (w.curslot + t % w.nslots) h, refl)

  -- A handle that has not been given out yet is not due.
  pub without-unknown :
      (a : ℕ) (w : TimeWheel A) (d : ℕ)
      → IsValid w
      → w.next_address ≤ a
      → keep (other a) (due w d) ≡ due w d
  unfolding due
  without-unknown a w d v h = go (slot_at w ((w.curslot + d) % w.nslots)) (v.fits _)
    where
      go :
          (ts : List (Timer A))
          → All (Fits ((w.curslot + d) % w.nslots) w.next_address) ts
          → keep (other a) (waiting (d / w.nslots) ts) ≡ waiting (d / w.nslots) ts
      go [] f = refl
      go (t ∷ ts) f = ground (arith, go ts f.1, f.0.known)

  -- In a well-formed wheel of n slots, a timer that is added with a timeout less than 2 ^ 31 * n
  -- and, `k` ticks later, handed to `delTimer`, changes nothing that is due after those ticks.
  pub due-del_timer-ticks-add_timer :
      (w : TimeWheel A) (t k d : ℕ) (fun : A)
      → IsValid w
      → t / w.nslots < sign_bit
      → due (del_timer (ticks k (add_timer w t fun).0).0 (some (add_timer w t fun).1)) d
        ≡ due (ticks k w).0 d
  due-del_timer-ticks-add_timer w t k d fun v h =
      let w' = (add_timer w t fun).0 in
      let timer = (add_timer w t fun).1 in
      let v' = add_timer-IsValid w t fun v h in
      let (address, slot, same) = add_timer-handle w t fun v.some_slots in
      due-del_timer (ticks k w').0 timer d (ticks-IsValid k w' v')
        (rw (nslots-ticks k w', same) slot)
        (rw address (ticks-AtHome k w.next_address timer.slot w' v' (add_timer-AtHome w t fun v)))
      ∙ rw (address, due-ticks k w' d v', due-ticks k w d v, due-add_timer w t (k + d) fun v h)
          (ground (
            arith,
            keep-snoc (other w.next_address) (due w (k + d)) (w.next_address, fun),
            without-unknown w.next_address w (k + d) v (omega arith),
          ))
