-- ===== src/Hash/Ends.antt =====
-- How insertions end: out of the bounds of an array, or with a table that is not behind the one
-- they began with in the list of primes.
use grit.Common.{
  ltb, ◌==◌, if◌then◌else◌, lt-cases, ltb-true, length, get_elem?, Outcome, ◌>>=◌, or_fault, incr,
  Text, ℕ, zero, suc, ◌+◌, ◌-◌, ◌%◌, ◌≤◌, ◌≡◌, refl, ◌⊎◌, inl, inr, Bool, true, false, Option, none,
  some, List, [], ◌∷◌, arith, ok, fault, out_of_range,
}
use grit.Hash.{
  Info, Mhash, prime_num, prime, at, get_pos, insert_chain, move_chain, move_chains, rehash,
}
use grit.Hash.Primes.{prime_at, prime-some, prime-none, prime_at_mono, prime_at-lt-suc}

abbrev pub Ends : ℕ → Outcome Mhash → Type 0
Ends n r = (r ≡ fault out_of_range) ⊎ ((m : Mhash) × (r ≡ ok m) × (n ≤ m.num_point))

abbrev pub Grows : (Mhash → Outcome Mhash) → Type 0
Grows r = (m : Mhash) → Ends m.num_point (r m)

Ends-or_fault :
    {A : Type 0} (n : ℕ) (o : Option A) (f : A → Outcome Mhash)
    → ((a : A) → Ends n (f a))
    → Ends n (or_fault out_of_range o >>= f)
Ends-or_fault n none f h = inl refl
Ends-or_fault n (some a) f h = h a

Ends-map-or_fault :
    {A B : Type 0} (n : ℕ) (o : Option A) (g : A → B) (f : B → Outcome Mhash)
    → ((b : B) → Ends n (f b))
    → Ends n (or_fault out_of_range o >>= (λ a. ok (g a)) >>= f)
Ends-map-or_fault n none g f h = inl refl
Ends-map-or_fault n (some a) g f h = h (g a)

Ends-bind :
    (n : ℕ) (r : Outcome Mhash) (f : Mhash → Outcome Mhash)
    → Ends n r
    → ((m : Mhash) → n ≤ m.num_point → Ends n (f m))
    → Ends n (r >>= f)
Ends-bind n r f (inl e) h = inl (rw e)
Ends-bind n r f (inr (m, e, le)) h = rw e (h m le)

Ends-if :
    (n : ℕ) (b : Bool) (r s : Outcome Mhash) → Ends n r → Ends n s → Ends n (if b then r else s)
Ends-if n true r s h k = h
Ends-if n false r s h k = k

Ends-le : (m n : ℕ) (r : Outcome Mhash) → m ≤ n → Ends n r → Ends m r
Ends-le m n r h (inl e) = inl e
Ends-le m n r h (inr (t, e, le)) = inr (t, e, omega arith)

module _ (hash : Text → ℕ) where
  insert_chain-Grows :
      (r : Mhash → Outcome Mhash) (m : Mhash) (x : Info) (xs : List Info)
      → Grows r
      → Ends m.num_point (insert_chain hash r m x xs)
  unfolding insert_chain get_pos prime at
  insert_chain-Grows r m x xs g =
      let n = m.num_point in
      Ends-map-or_fault n (get_elem? prime_num n) (λ p. hash x.key % p) _
        (λ pos. Ends-or_fault n (get_elem? m.head pos) _ (λ bucket.
          Ends-or_fault n (get_elem? prime_num n) _
            (λ p. Ends-if n (incr m.sum == p - 1) _ _ (g _) (inr (_, refl, omega arith)))))

  pub move_chain-Grows :
      (r : Mhash → Outcome Mhash) (m : Mhash) (c : List Info)
      → Grows r
      → Ends m.num_point (move_chain hash r m c)
  unfolding move_chain
  move_chain-Grows r m [] g = inr (m, refl, omega arith)
  move_chain-Grows r m (x ∷ xs) g = insert_chain-Grows r m x xs g

  move_chains-Grows :
      (r : Mhash → Outcome Mhash) (cs : List (List Info)) (i n : ℕ) (m : Mhash)
      → Grows r
      → n ≤ m.num_point
      → Ends n (move_chains hash r cs i m)
  unfolding move_chains prime
  move_chains-Grows r [] i n m g h =
      Ends-or_fault n (get_elem? prime_num (m.num_point - 1)) _
        (λ bound. Ends-if n (ltb i bound) _ _ (inl refl) (inr (m, refl, h)))
  move_chains-Grows r (c ∷ cs) i n m g h =
      Ends-or_fault n (get_elem? prime_num (m.num_point - 1)) _ (λ bound.
        Ends-if n (ltb i bound) _ _
          (Ends-bind n _ _ (Ends-le n m.num_point _ h (move_chain-Grows r m c g))
            (λ m' h'. move_chains-Grows r cs (i + 1) n m' g h'))
          (inr (m, refl, h)))

  -- A call of `rehash` that ends has taken at least one more of the primes.
  pub rehash-Ends : (fuel : ℕ) (m : Mhash) → Ends (m.num_point + 1) (rehash hash fuel m)
  unfolding rehash prime
  rehash-Ends zero m = inl refl
  rehash-Ends (suc fuel) m =
      Ends-or_fault (m.num_point + 1) (get_elem? prime_num (m.num_point + 1)) _ (λ p.
        move_chains-Grows (rehash hash fuel) m.head 0 (m.num_point + 1) _
          (λ t. Ends-le t.num_point (t.num_point + 1) _ (omega arith) (rehash-Ends fuel t))
          (omega arith))

  pub rehash-Grows : (fuel : ℕ) → Grows (rehash hash fuel)
  rehash-Grows fuel m = Ends-le m.num_point (m.num_point + 1) _ (omega arith) (rehash-Ends fuel m)

  bound-overrun :
      (i k np : ℕ)
      → k + 2 ≤ np
      → i ≤ prime_at k
      → (prime (np - 1) ≡ fault out_of_range)
        ⊎ ((bound : ℕ) × (prime (np - 1) ≡ ok bound) × (ltb i bound ≡ true))
  bound-overrun i k np h w = elim (lt-cases (np - 1) 17) [
    | inr high ↦ inl (prime-none (np - 1) high)
    | inl low ↦ inr (
      prime_at (np - 1),
      prime-some (np - 1) low,
      ltb-true (
          omega (
            arith,
            prime_at-lt-suc k (omega arith),
            prime_at_mono (suc k) (np - 1) (omega arith) low,
          )),
    )
  ]

  -- A loop whose table moved on to a later prime than the next one reads past the end of the old
  -- array, which has as many chains as the prime before.
  pub move_chains-overrun :
      (r : Mhash → Outcome Mhash) (cs : List (List Info)) (i k : ℕ) (m : Mhash)
      → Grows r
      → k + 2 ≤ m.num_point
      → i + length cs ≤ prime_at k
      → move_chains hash r cs i m ≡ fault out_of_range
  unfolding move_chains
  move_chains-overrun r [] i k m g h w = elim (bound-overrun i k m.num_point h (omega arith)) [
    | inl e ↦ rw e
    | inr (bound, e, more) ↦ rw (e, more)
  ]
  move_chains-overrun r (c ∷ cs) i k m g h w =
      elim (bound-overrun i k m.num_point h (omega arith)) [
        | inl e ↦ rw e
        | inr (bound, e, more) ↦ elim (move_chain-Grows r m c g) [
          | inl broken ↦ rw (e, more, broken)
          | inr (m', moved, le) ↦
              rw (e, more, moved)
                (move_chains-overrun r cs (i + 1) k m' g (omega arith) (omega arith))
        ]
      ]
