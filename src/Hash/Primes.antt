-- ===== src/Hash/Primes.antt =====
-- The table of primes: it rises, and only its first 17 entries exist.
use grit.Common.{
  ltb, leb, eq-cases, get_or, get_or-get_elem?, get_elem?-eq-none, or_fault, ℕ, zero, suc, ◌+◌, ◌≤◌,
  ◌<◌, ◌≡◌, refl, ap, inl, inr, Bool, true, ◌&&◌, arith, ok, fault, out_of_range,
}
use grit.Hash.{prime_num, prime}

unfoldable pub prime_at : ℕ → ℕ
prime_at k = get_or prime_num k 0

-- A test passes on each number below a bound.
passes : (ℕ → Bool) → ℕ → Bool
passes test zero = true
passes test (suc bound) = passes test bound && test bound

passes-below :
    (test : ℕ → Bool) (k bound : ℕ) → k < bound → passes test bound ≡ true → test k ≡ true
unfolding passes
passes-below test k zero lt e = absurd (omega arith)
passes-below test k (suc bound) lt e = ground (arith, passes-below test k bound)

rises : ℕ → Bool
unfolding prime_at
rises k = ltb (prime_at k) (prime_at (suc k))

moderate : ℕ → Bool
unfolding prime_at
moderate k = leb 23 (prime_at k) && leb (prime_at k) 97

rises-all : passes rises 16 ≡ true
unfolding passes rises
rises-all = refl

moderate-all : passes moderate 17 ≡ true
unfolding passes moderate
moderate-all = refl

pub prime_at-lt-suc : (k : ℕ) → k < 16 → prime_at k < prime_at (suc k)
prime_at-lt-suc k h = let e = passes-below rises k 16 h rises-all in unfold rises in ground arith

pub prime_at-lt-next : (k : ℕ) → k < 16 → prime_at k < prime_at (k + 1)
prime_at-lt-next k h = let e : k + 1 ≡ suc k = omega arith in rw e (prime_at-lt-suc k h)

pub prime_at-bounds : (k : ℕ) → k < 17 → (23 ≤ prime_at k) × (prime_at k ≤ 97)
prime_at-bounds k h =
    let e = passes-below moderate k 17 h moderate-all in unfold moderate in ground arith

pub prime_at_mono : (a b : ℕ) → a ≤ b → b < 17 → prime_at a ≤ prime_at b
prime_at_mono a zero h lt = let e : a ≡ 0 = omega arith in rw e (omega arith)
prime_at_mono a (suc b) h lt = elim (eq-cases a (suc b)) [
  | inl e ↦ rw e (omega arith)
  | inr n ↦
      omega (arith, prime_at_mono a b (omega arith) (omega arith), prime_at-lt-suc b (omega arith))
]

pub prime-some : (k : ℕ) → k < 17 → prime k ≡ ok (prime_at k)
unfolding prime prime_at
prime-some k h = ap (or_fault out_of_range) (get_or-get_elem? prime_num k 0 h)

pub prime-none : (k : ℕ) → 17 ≤ k → prime k ≡ fault out_of_range
unfolding prime
prime-none k h = ap (or_fault out_of_range) (get_elem?-eq-none prime_num k h)
