-- ===== src/Dbtl/Meanwhile.antt =====
-- The handler of the log store adds timers while the thread of the wheel turns it.
use grit.Common.{
  ltb-true, ok-injective, ℕ, zero, suc, ◌*◌, ◌%◌, ◌^◌, ◌<◌, ◌≡◌, refl, ◌≢◌, ◌⊎◌, inl, inr, arith,
  ok,
}
use grit.TimeWheel.{TimeWheel, add_timer, tick}
use grit.TimeWheel.Due
use grit.TimeWheel.Halves.{run_slot, advance, tick-add_timer_meanwhile}
use grit.Dbtl.{delay}

-- The powers of 2 are 2 and 4, modulo 6.
pow-mod : (k : ℕ) → (2 ^ suc k % 6 ≡ 2) ⊎ (2 ^ suc k % 6 ≡ 4)
pow-mod zero = inl refl
pow-mod (suc k) = elim (pow-mod k) [ inl two ↦ inr (omega arith) | inr four ↦ inl (omega arith) ]

delay-apart : (k timeout : ℕ) → delay (suc k) ≡ ok timeout → suc k < 55 → timeout % 6000 ≢ 0
unfolding delay
delay-apart k timeout e small =
    let value : 2 ^ suc k * 1000 ≡ timeout =
      ok-injective (rw (ltb-true {a = suc k} {b = 55} small) at e) in
    elim (pow-mod k) [ inl two ↦ omega arith | inr four ↦ omega arith ]

-- The wheel of a log player has 6000 slots. The timer of a retry before the 55th never goes to the
-- slot that is being turned, so that it makes no difference whether the handler adds it before a tick
-- of a well-formed wheel, or after the loop of that tick and before the step to the next slot.
pub delay-meanwhile :
    (w : TimeWheel ℕ) (k timeout txid : ℕ)
    → Due.IsValid w
    → w.nslots ≡ 6000
    → suc k < 55
    → delay (suc k) ≡ ok timeout
    → (advance (add_timer (run_slot w).0 timeout txid).0, (run_slot w).1)
      ≡ tick (add_timer w timeout txid).0
delay-meanwhile w k timeout txid v size small e =
    tick-add_timer_meanwhile w timeout txid v (rw size (delay-apart k timeout e small))
