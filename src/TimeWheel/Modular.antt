-- ===== src/TimeWheel/Modular.antt =====
-- Arithmetic on the slots of a wheel of `n` slots that stands at slot `c`.
use native.Mathlib.Nat.{
  add-mod-mod, mod-add-mod, mod-eq_of_lt, mod-eq-sub-mod, div-add-mod', div-eq_of_lt-le, mod-lt,
}
use grit.Common.{
  ltb, if◌then◌else◌, lt-cases, ltb-true, ltb-false, ℕ, suc, ◌+◌, ◌-◌, ◌*◌, ◌/◌, ◌%◌, ◌≤◌, ◌<◌, ◌≡◌,
  sym, ap, ◌∙◌, ◌≢◌, ◌⊎◌, inl, inr, arith,
}

mod-once : (n x : ℕ) → x < n + n → x % n ≡ (if ltb x n then x else x - n)
mod-once n x h = elim (lt-cases x n) [
  | inl low ↦ rw (ltb-true low) (mod-eq_of_lt low)
  | inr high ↦
      rw (ltb-false high, mod-eq-sub-mod {n = x} {m = n} high)
        (mod-eq_of_lt {n = x - n} {m = n} (omega arith))
]

-- The slot that lies `d` ticks ahead, with one subtraction in place of the division.
pub home-eq :
    (n c d : ℕ)
    → 0 < n
    → c < n
    → (c + d) % n ≡ (if ltb (c + d % n) n then c + d % n else c + d % n - n)
home-eq n c d hn hc = sym (add-mod-mod c d n) ∙ mod-once n (c + d % n) (omega arith)

div-suc : (n d : ℕ) → 0 < n → d % n + 1 < n → suc d / n ≡ d / n
div-suc n d hn h =
    div-eq_of_lt-le n (omega (arith, div-add-mod' d n)) (omega (arith, div-add-mod' d n))

div-suc_wrap : (n d : ℕ) → 0 < n → n ≤ d % n + 1 → suc d / n ≡ d / n + 1
div-suc_wrap n d hn h =
    div-eq_of_lt-le n (omega (arith, div-add-mod' d n)) (omega (arith, div-add-mod' d n))

-- One more tick moves on by one slot, or starts a new turn.
pub suc-turn :
    (n d : ℕ)
    → 0 < n
    → ((suc d / n ≡ d / n) × (suc d % n ≡ d % n + 1) × (d % n + 1 < n))
      ⊎ ((suc d / n ≡ d / n + 1) × (suc d % n ≡ 0) × (d % n + 1 ≡ n))
suc-turn n d hn = elim (lt-cases (d % n + 1) n) [
  | inl low ↦
      let e = div-suc n d hn low in
      inl (e, omega (arith, div-add-mod' d n, div-add-mod' (suc d) n, ap (λ (t : ℕ). t * n) e), low)
  | inr high ↦
      let e = div-suc_wrap n d hn high in
      inr (
        e,
        omega
            (arith, div-add-mod' d n, div-add-mod' (suc d) n, ap (λ (t : ℕ). t * n) e, mod-lt d hn),
        omega (arith, mod-lt d hn),
      )
]

-- The slot and the number of turns determine the number of ticks.
pub turn_unique : (n c d t : ℕ) → 0 < n → c < n → (c + d) % n ≡ (c + t) % n → d / n ≡ t / n → d ≡ t
turn_unique n c d t hn hc slots turns =
    let same : d % n ≡ t % n =
      ground (arith, home-eq n c d hn hc, home-eq n c t hn hc, mod-lt d hn, mod-lt t hn) in
    omega (arith, div-add-mod' d n, div-add-mod' t n, ap (λ (k : ℕ). k * n) turns)

-- After one more tick the slot `d` ticks ahead is the slot that was `d + 1` ticks ahead: another
-- slot than `c`, or `c` itself one turn later.
pub slot-suc :
    (n c d : ℕ)
    → 0 < n
    → c < n
    → (((c + suc d) % n ≢ c) × (suc d / n ≡ d / n))
      ⊎ (((c + suc d) % n ≡ c) × (suc d / n ≡ d / n + 1))
slot-suc n c d hn hc = elim (suc-turn n d hn) [
  | inl (same, next, low) ↦ inl ((λ e. ground (arith, home-eq n c (suc d) hn hc)), same)
  | inr (more, zero_left, full) ↦ inr (ground (arith, home-eq n c (suc d) hn hc), more)
]

pub slot-shift : (n c d : ℕ) → ((c + 1) % n + d) % n ≡ (c + suc d) % n
slot-shift n c d = mod-add-mod (c + 1) n d ∙ ap (λ (t : ℕ). t % n) (omega arith)
