-- ===== src/TimeWheel/Deadlines.antt =====
-- A list of deadlines, which a wheel stands for: each entry has the ticks that it waits, its number
-- in the order of the additions, and its callback.
use grit.Common.{
  ◌==◌, if◌then◌else◌, get_elem?, keep, sign_bit, ℕ, suc, ◌+◌, ◌-◌, ◌/◌, ◌<◌, ◌≡◌, refl, Bool, not,
  List, [], ◌∷◌, ◌++◌, map, arith,
}
use grit.TimeWheel.{Timer, TimeWheel, add_timer, del_timer, tick}
use grit.TimeWheel.Due.{callback}
use grit.TimeWheel.Cancel.{other}

abbrev pub Deadlines : Type 0 → Type 0
Deadlines A = List (ℕ × (ℕ × A))

module _ {A : Type 0} where
  abbrev pub is_at : ℕ → ℕ × (ℕ × A) → Bool
  is_at d e = e.0 == d

  abbrev pub is_later : ℕ × (ℕ × A) → Bool
  is_later e = not (e.0 == 0)

  abbrev pub is_not : ℕ → ℕ × (ℕ × A) → Bool
  is_not a e = other a e.1

  abbrev pub entry : ℕ × (ℕ × A) → ℕ × A
  entry e = e.1

  abbrev pub nearer : ℕ × (ℕ × A) → ℕ × (ℕ × A)
  nearer e = (e.0 - 1, e.1)

  -- What is due in `d` ticks, in the order of the additions.
  abbrev pub due_at : ℕ → Deadlines A → List (ℕ × A)
  due_at d r = map entry (keep (is_at d) r)

  -- One tick later.
  abbrev pub pass_tick : Deadlines A → Deadlines A
  pass_tick r = map nearer (keep is_later r)

  pub due_at-snoc :
      (d t : ℕ) (h : ℕ × A) (r : Deadlines A)
      → due_at d (r ++ (t, h) ∷ []) ≡ (if d == t then due_at d r ++ h ∷ [] else due_at d r)
  due_at-snoc d t h [] = ground arith
  due_at-snoc d t h (e ∷ r) = ground (arith, due_at-snoc d t h r)

  pub due_at-cancel :
      (d a : ℕ) (r : Deadlines A) → due_at d (keep (is_not a) r) ≡ keep (other a) (due_at d r)
  due_at-cancel d a [] = refl
  due_at-cancel d a (e ∷ r) = ground (arith, due_at-cancel d a r)

  pub due_at-pass_tick : (d : ℕ) (r : Deadlines A) → due_at d (pass_tick r) ≡ due_at (suc d) r
  due_at-pass_tick d [] = refl
  due_at-pass_tick d (e ∷ r) = ground (arith, due_at-pass_tick d r)

-- What a client does: it adds a timer, hands the i-th of its timers to `delTimer`, or lets a tick
-- pass.
pub data Command (A : Type 0) : Type 0 where
  after : ℕ → A → Command A
  cancel : ℕ → Command A
  pass : Command A

module _ {A : Type 0} where
  -- What the ticks run, on a wheel whose client has the timers `given`.
  unfoldable pub run_wheel : List (Command A) → TimeWheel A → List (Timer A) → List (List A)
  run_wheel [] w given = []
  run_wheel (after t fun ∷ cs) w given =
      run_wheel cs (add_timer w t fun).0 (given ++ (add_timer w t fun).1 ∷ [])
  run_wheel (cancel i ∷ cs) w given = run_wheel cs (del_timer w (get_elem? given i)) given
  run_wheel (pass ∷ cs) w given = (tick w).1 ∷ run_wheel cs (tick w).0 given

  -- The same with a list of deadlines: an addition is put at the end with its number, a tick runs what
  -- has no tick left.
  unfoldable pub run_list : List (Command A) → ℕ → Deadlines A → List (List A)
  run_list [] next r = []
  run_list (after t fun ∷ cs) next r = run_list cs (next + 1) (r ++ (t, (next, fun)) ∷ [])
  run_list (cancel i ∷ cs) next r = run_list cs next (keep (is_not i) r)
  run_list (pass ∷ cs) next r = map callback (due_at 0 r) ∷ run_list cs next (pass_tick r)

  abbrev pub IsShort : ℕ → Command A → Type 0
  IsShort n (after t fun) = t / n < sign_bit
  IsShort n _ = Unit
