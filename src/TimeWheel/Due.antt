-- ===== src/TimeWheel/Due.antt =====
-- The abstract wheel: which timers are due `d` ticks from now, and what `addTimer` and `delTimer`
-- do to that.
use grit.TimeWheel.Modular.{turn_unique}
use native.Mathlib.Nat.{add-mod-mod, mod-lt}
use grit.Common.{
  ◌==◌, if◌then◌else◌, length, get_or, keep, length-replicate, get_or-replicate, get_or-set, All,
  sign_bit, ℕ, suc, ◌+◌, ◌/◌, ◌%◌, ◌≤◌, ◌<◌, ◌≡◌, refl, Bool, List, [], ◌∷◌, ◌++◌, map, arith,
}
use grit.TimeWheel.{Timer, TimeWheel, time_wheel, add_timer}

module _ {A : Type 0} where
  abbrev pub rotates : ℕ → Timer A → Bool
  rotates k t = t.rotations == k

  abbrev pub slot_at : TimeWheel A → ℕ → List (Timer A)
  slot_at w i = get_or w.slots i []

  -- What identifies an entry: the pointer and the callback.
  abbrev pub handle : Timer A → ℕ × A
  handle t = (t.address, t.fun)

  abbrev pub waiting : ℕ → List (Timer A) → List (ℕ × A)
  waiting k ts = map handle (keep (rotates k) ts)

  abbrev pub callback : ℕ × A → A
  callback h = h.1

  -- The entries of the slot that is reached after `d` more ticks that have that many turns to go.
  unfoldable pub due : TimeWheel A → ℕ → List (ℕ × A)
  due w d = waiting (d / w.nslots) (slot_at w ((w.curslot + d) % w.nslots))

  -- A timer that stands in slot `i`: the counter is a non-negative `int`.
  pub record Fits (i next : ℕ) (t : Timer A) : Type 0 where
    pub in_slot : t.slot ≡ i
    pub turns : t.rotations < sign_bit
    pub known : t.address < next

  -- Addresses differ along a list: each is greater than those before it.
  abbrev pub Rising : ℕ → List (Timer A) → Type 0
  Rising low [] = Unit {0}
  Rising low (t ∷ ts) = (low ≤ t.address) × Rising (suc t.address) ts

  pub record IsValid (w : TimeWheel A) : Type 0 where
    pub some_slots : 0 < w.nslots
    pub few_slots : w.nslots < sign_bit
    pub width : length w.slots ≡ w.nslots
    pub current : w.curslot < w.nslots
    pub fits : (i : ℕ) → All (Fits i w.next_address) (slot_at w i)
    pub rising : (i : ℕ) → Rising 0 (slot_at w i)

  pub time_wheel-IsValid : (n now : ℕ) → 0 < n → n < sign_bit → IsValid (time_wheel {A = A} n now)
  unfolding time_wheel
  time_wheel-IsValid n now h k = record {
    some_slots = h;
    few_slots = k;
    width = length-replicate n [];
    current = h;
    fits = λ i. rw (get_or-replicate {A = List (Timer A)} n i []) tt;
    rising = λ i. rw (get_or-replicate {A = List (Timer A)} n i []) tt;
  }

  -- Nothing is due in a new wheel.
  pub due-time_wheel : (n now d : ℕ) → due (time_wheel {A = A} n now) d ≡ []
  unfolding due time_wheel
  due-time_wheel n now d = rw (get_or-replicate {A = List (Timer A)} n ((0 + d) % n) []) refl

  waiting-snoc :
      (k : ℕ) (ts : List (Timer A)) (t : Timer A)
      → waiting k (ts ++ t ∷ [])
        ≡ (if t.rotations == k then waiting k ts ++ handle t ∷ [] else waiting k ts)
  waiting-snoc k [] t = ground arith
  waiting-snoc k (x ∷ ts) t = ground (arith, waiting-snoc k ts t)

  -- Adding a timer makes its callback the last of those due in `timeout` ticks, and changes nothing
  -- that is due at any other tick.
  pub due-add_timer :
      (w : TimeWheel A) (timeout d : ℕ) (fun : A)
      → IsValid w
      → timeout / w.nslots < sign_bit
      → due (add_timer w timeout fun).0 d
        ≡ (if d == timeout then due w d ++ (w.next_address, fun) ∷ [] else due w d)
  unfolding due add_timer
  due-add_timer w timeout d fun v h =
      let n = w.nslots in
      let timer = (add_timer w timeout fun).1 in
      ground (
        arith,
        get_or-set w.slots ((w.curslot + timeout % n) % n) ((w.curslot + d) % n)
            (slot_at w ((w.curslot + timeout % n) % n) ++ timer ∷ []) [],
        waiting-snoc (d / n) (slot_at w ((w.curslot + timeout % n) % n)) timer,
        turn_unique n w.curslot d timeout v.some_slots v.current,
        add-mod-mod w.curslot timeout n,
        mod-lt (w.curslot + timeout % n) v.some_slots,
      )
