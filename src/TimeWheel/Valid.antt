-- ===== src/TimeWheel/Valid.antt =====
-- Every operation of the wheel keeps it well formed.
use grit.Common.{
  eq-cases, eq_true, eq_false, length, get_or, set, length-set, get_or-set, All, All-append,
  All-map, sign_bit, ℕ, suc, ◌+◌, ◌/◌, ◌%◌, ◌≤◌, ◌<◌, ◌≡◌, refl, ◌∙◌, inl, inr, some, List, [], ◌∷◌,
  ◌++◌, arith,
}
use native.Mathlib.Nat.{mod-lt}
use grit.TimeWheel.{Timer, TimeWheel, add_timer, erase_timer, del_timer, turn, tick}
use grit.TimeWheel.Due.{slot_at, Fits, Rising, IsValid}

module _ {A : Type 0} where
  Fits-later : (i next : ℕ) (t : Timer A) → Fits i next t → Fits i (next + 1) t
  Fits-later i next t f = omega arith

  Rising-snoc :
      (low next i : ℕ) (ts : List (Timer A)) (t : Timer A)
      → All (Fits i next) ts
      → low ≤ next
      → t.address ≡ next
      → Rising low ts
      → Rising low (ts ++ t ∷ [])
  Rising-snoc low next i [] t f h e r = (omega arith, tt)
  Rising-snoc low next i (x ∷ ts) t f h e r =
      (r.0, Rising-snoc (suc x.address) next i ts t f.1 f.0.known e r.1)

  Rising-mono : {low high : ℕ} (ts : List (Timer A)) → low ≤ high → Rising high ts → Rising low ts
  Rising-mono [] h r = tt
  Rising-mono (t ∷ ts) h r = (omega arith, r.1)

  -- A write to one slot keeps what holds of each slot.
  pub slot-set :
      (P : ℕ → List (Timer A) → Type 0) (w : TimeWheel A) (j : ℕ) (ts : List (Timer A))
      → j < length w.slots
      → ((i : ℕ) → P i (slot_at w i))
      → P j ts
      → (i : ℕ) → P i (get_or (set w.slots j ts) i [])
  slot-set P w j ts h all new i = elim (eq-cases j i) [
    | inl e ↦ rw (get_or-set w.slots j i ts [] h, eq_true e, ← e) new
    | inr n ↦ rw (get_or-set w.slots j i ts [] h, eq_false n) (all i)
  ]

  pub add_timer-IsValid :
      (w : TimeWheel A) (timeout : ℕ) (fun : A)
      → IsValid w
      → timeout / w.nslots < sign_bit
      → IsValid (add_timer w timeout fun).0
  unfolding add_timer
  add_timer-IsValid w timeout fun v h =
      let j = (w.curslot + timeout % w.nslots) % w.nslots in
      let within : j < length w.slots =
        omega (arith, v.width, mod-lt (w.curslot + timeout % w.nslots) v.some_slots) in
      let later = λ (i : ℕ).
        All-map (Fits i w.next_address) (Fits i (w.next_address + 1)) (slot_at w i)
          (Fits-later i w.next_address) (v.fits i) in
      record {
        some_slots = v.some_slots;
        few_slots = v.few_slots;
        width = length-set w.slots j _ ∙ v.width;
        current = v.current;
        fits =
            slot-set (λ i. All (Fits i (w.next_address + 1))) w j _ within later
              (All-append (Fits j (w.next_address + 1)) (slot_at w j) _ (later j)
                (record { in_slot = refl; turns = omega arith; known = omega arith }, tt));
        rising =
            slot-set (λ i. Rising 0) w j _ within v.rising
              (Rising-snoc 0 w.next_address j (slot_at w j) _ (v.fits j) (omega arith) refl
                (v.rising j));
      }

  erase_timer-Fits :
      (i next address : ℕ) (ts : List (Timer A))
      → All (Fits i next) ts
      → All (Fits i next) (erase_timer address ts)
  unfolding erase_timer
  erase_timer-Fits i next address [] h = tt
  erase_timer-Fits i next address (t ∷ ts) h =
      ground (arith, erase_timer-Fits i next address ts h.1)

  erase_timer-Rising :
      (low address : ℕ) (ts : List (Timer A)) → Rising low ts → Rising low (erase_timer address ts)
  unfolding erase_timer
  erase_timer-Rising low address [] h = tt
  erase_timer-Rising low address (t ∷ ts) h = ground (
    arith,
    erase_timer-Rising (suc t.address) address ts h.1,
    Rising-mono {low = low} {high = suc t.address} ts,
  )

  pub del_timer-IsValid :
      (w : TimeWheel A) (timer : Timer A)
      → IsValid w
      → timer.slot < w.nslots
      → IsValid (del_timer w (some timer))
  unfolding del_timer
  del_timer-IsValid w timer v h =
      let within : timer.slot < length w.slots = omega (arith, v.width) in
      record {
        some_slots = v.some_slots;
        few_slots = v.few_slots;
        width = length-set w.slots timer.slot _ ∙ v.width;
        current = v.current;
        fits =
            slot-set (λ i. All (Fits i w.next_address)) w timer.slot _ within v.fits
              (erase_timer-Fits timer.slot w.next_address timer.address _ (v.fits timer.slot));
        rising =
            slot-set (λ i. Rising 0) w timer.slot _ within v.rising
              (erase_timer-Rising 0 timer.address _ (v.rising timer.slot));
      }

  turn-Fits :
      (i next : ℕ) (ts : List (Timer A)) → All (Fits i next) ts → All (Fits i next) (turn ts).0
  unfolding turn
  turn-Fits i next [] h = tt
  turn-Fits i next (t ∷ ts) h = ground (arith, turn-Fits i next ts h.1)

  turn-Rising : (low : ℕ) (ts : List (Timer A)) → Rising low ts → Rising low (turn ts).0
  unfolding turn
  turn-Rising low [] h = tt
  turn-Rising low (t ∷ ts) h = ground (
    arith,
    turn-Rising (suc t.address) ts h.1,
    Rising-mono {low = low} {high = suc t.address} (turn ts).0,
  )

  pub tick-IsValid : (w : TimeWheel A) → IsValid w → IsValid (tick w).0
  unfolding tick
  tick-IsValid w v =
      let within : w.curslot < length w.slots = omega (arith, v.width, v.current) in
      record {
        some_slots = v.some_slots;
        few_slots = v.few_slots;
        width = length-set w.slots w.curslot _ ∙ v.width;
        current = mod-lt (w.curslot + 1) v.some_slots;
        fits =
            slot-set (λ i. All (Fits i w.next_address)) w w.curslot _ within v.fits
              (turn-Fits w.curslot w.next_address _ (v.fits w.curslot));
        rising =
            slot-set (λ i. Rising 0) w w.curslot _ within v.rising
              (turn-Rising 0 _ (v.rising w.curslot));
      }
