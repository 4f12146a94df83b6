-- ===== src/TimeWheel/Owners.antt =====
-- base/timeWheel.h: who deletes a timer. `addTimer` makes it with new; a tick deletes it when it
-- has run, and the destructor of the wheel deletes what is still in a slot. `delTimer` deletes
-- nothing.
use grit.Common.{
  ◌==◌, if◌then◌else◌, length, get_or, set, replicate, slt, ℕ, zero, suc, ◌+◌, ◌<◌, ◌≡◌, refl, List,
  [], ◌∷◌, ◌++◌, arith,
}
use grit.TimeWheel.{Timer, erase_timer, turn}

abbrev pub occurrences : ℕ → List ℕ → ℕ
occurrences a [] = 0
occurrences a (b ∷ bs) = let rest = occurrences a bs in if b == a then suc rest else rest

pub occurrences-append :
    (a : ℕ) (xs ys : List ℕ) → occurrences a (xs ++ ys) ≡ occurrences a xs + occurrences a ys
occurrences-append a [] ys = omega arith
occurrences-append a (x ∷ xs) ys = ground (arith, occurrences-append a xs ys)

module _ {A : Type 0} where
  abbrev pub addresses : List (Timer A) → List ℕ
  addresses [] = []
  addresses (t ∷ ts) = t.address ∷ addresses ts

  -- The destructor, slot by slot.
  unfoldable pub delete_slots : List (List (Timer A)) → List ℕ
  delete_slots [] = []
  delete_slots (ts ∷ slots) = addresses ts ++ delete_slots slots

  -- What a tick deletes in its slot: the timers that have run.
  unfoldable pub delete_expired : List (Timer A) → List ℕ
  delete_expired [] = []
  delete_expired (t ∷ ts) =
      let rest = delete_expired ts in if slt 0 t.rotations then rest else t.address ∷ rest

  -- What leaves a slot when `delTimer` looks for an address.
  unfoldable pub taken_out : ℕ → List (Timer A) → List ℕ
  taken_out address [] = []
  taken_out address (t ∷ ts) =
      let rest = taken_out address ts in if t.address == address then t.address ∷ [] else rest

  pub occurrences-set :
      (a : ℕ) (slots : List (List (Timer A))) (k : ℕ) (ts : List (Timer A))
      → k < length slots
      → occurrences a (delete_slots (set slots k ts))
          + occurrences a (addresses (get_or slots k []))
        ≡ occurrences a (delete_slots slots) + occurrences a (addresses ts)
  unfolding delete_slots
  occurrences-set a [] k ts h = absurd (omega (arith, h))
  occurrences-set a (x ∷ slots) zero ts h = omega (
    arith,
    occurrences-append a (addresses x) (delete_slots slots),
    occurrences-append a (addresses ts) (delete_slots slots),
  )
  occurrences-set a (x ∷ slots) (suc k) ts h = omega (
    arith,
    occurrences-append a (addresses x) (delete_slots slots),
    occurrences-append a (addresses x) (delete_slots (set slots k ts)),
    occurrences-set a slots k ts (omega (arith, h)),
  )

  pub occurrences-turn :
      (a : ℕ) (ts : List (Timer A))
      → occurrences a (addresses (turn ts).0) + occurrences a (delete_expired ts)
        ≡ occurrences a (addresses ts)
  unfolding turn delete_expired
  occurrences-turn a [] = refl
  occurrences-turn a (t ∷ ts) = ground (arith, occurrences-turn a ts)

  pub occurrences-erase_timer :
      (a b : ℕ) (ts : List (Timer A))
      → occurrences a (addresses (erase_timer b ts)) + occurrences a (taken_out b ts)
        ≡ occurrences a (addresses ts)
  unfolding erase_timer taken_out
  occurrences-erase_timer a b [] = refl
  occurrences-erase_timer a b (t ∷ ts) = ground (arith, occurrences-erase_timer a b ts)

  pub occurrences-snoc :
      (a : ℕ) (ts : List (Timer A)) (t : Timer A)
      → occurrences a (addresses (ts ++ t ∷ []))
        ≡ occurrences a (addresses ts) + (if t.address == a then 1 else 0)
  occurrences-snoc a [] t = ground arith
  occurrences-snoc a (s ∷ ts) t = ground (arith, occurrences-snoc a ts t)

pub delete-replicate :
    (A : Type 0) (a n : ℕ) → occurrences a (delete_slots {A = A} (replicate n [])) ≡ 0
unfolding delete_slots
delete-replicate A a zero = refl
delete-replicate A a (suc n) = delete-replicate A a n
