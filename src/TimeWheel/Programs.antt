-- ===== src/TimeWheel/Programs.antt =====
-- Any sequence of calls of a wheel against the list of deadlines that it stands for.
use grit.Common.{length, get_elem?, All, ℕ, ◌<◌, ◌≡◌, some, List}
use grit.TimeWheel.{Timer, TimeWheel}
use grit.TimeWheel.Due.{slot_at, due, IsValid}
use grit.TimeWheel.Cancel.{AtHome}
use grit.TimeWheel.Deadlines.{Deadlines, due_at}

module _ {A : Type 0} where
  record Agrees (n : ℕ) (w : TimeWheel A) (given : List (Timer A)) (r : Deadlines A) : Type 0 where
    valid : IsValid w
    size : w.nslots ≡ n
    counted : length given ≡ w.next_address
    same : (d : ℕ) → due w d ≡ due_at d r
    handles :
        (i : ℕ) (t : Timer A)
        → get_elem? given i ≡ some t
        → (t.address ≡ i) × (t.slot < n) × ((j : ℕ) → All (AtHome i t.slot) (slot_at w j))
