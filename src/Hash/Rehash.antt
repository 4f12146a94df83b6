-- ===== src/Hash/Rehash.antt =====
-- `rehash` in full: where each chain goes, and when the calls run past the end of an array.
use grit.Common.{
  ltb, ◌==◌, if◌then◌else◌, lt-cases, eq-cases, ltb-true, ltb-false, eq_true, eq_false, length,
  get_or, set, replicate, length-set, length-replicate, get_or-get_elem?, Outcome, or_fault, incr,
  Text, ℕ, zero, suc, ◌+◌, ◌-◌, ◌%◌, ◌≤◌, ◌<◌, ◌≡◌, refl, ap, ◌∙◌, inl, inr, List, [], ◌∷◌, ◌++◌,
  arith, ok, fault, out_of_range,
}
use native.Mathlib.Nat.{mod-lt}
use grit.Hash.{Info, Mhash, prime, at, get_pos, insert_chain, move_chain, move_chains, rehash}
use grit.Hash.Primes.{prime_at, prime-some, prime-none, prime_at-bounds}
use grit.Hash.Ends.{Ends, Grows, rehash-Ends, rehash-Grows, move_chains-overrun}

-- How many chains have a node.
unfoldable pub used : List (List Info) → ℕ
used [] = 0
used ([] ∷ cs) = used cs
used ((x ∷ xs) ∷ cs) = suc (used cs)

pub at-some : (h : List (List Info)) (i : ℕ) → i < length h → at h i ≡ ok (get_or h i [])
unfolding at
at-some h i lt = ap (or_fault out_of_range) (get_or-get_elem? h i [] lt)

-- A table whose array is as long as its prime says.
pub record IsSized (m : Mhash) : Type 0 where
  pub known : m.num_point < 17
  pub width : length m.head ≡ prime_at m.num_point
  pub small : m.sum < 97

module _ (hash : Text → ℕ) where
  -- The chain that a key belongs to in a table of `p` chains.
  abbrev pub slot : ℕ → Text → ℕ
  slot p k = hash k % p

  -- The array `h` of `p` chains after the nodes `x` and `xs` have been hung at the end of a chain.
  abbrev pub hang : ℕ → List (List Info) → Info → List Info → List (List Info)
  hang p h x xs = set h (slot p x.key) (get_or h (slot p x.key) [] ++ x ∷ xs)

  -- and after all chains of an array have been moved to it, each as a whole.
  unfoldable pub placed : ℕ → List (List Info) → List (List Info) → List (List Info)
  placed p [] h = h
  placed p ([] ∷ cs) h = placed p cs h
  placed p ((x ∷ xs) ∷ cs) h = placed p cs (hang p h x xs)

  unfoldable pub hung : Mhash → Info → List Info → Mhash
  hung m x xs = record m { head = hang (prime_at m.num_point) m.head x xs; sum = m.sum + 1 }

  pub insert_chain-hung :
      (r : Mhash → Outcome Mhash) (m : Mhash) (x : Info) (xs : List Info)
      → IsSized m
      → insert_chain hash r m x xs
        ≡ (if m.sum + 1 == prime_at m.num_point - 1 then r (hung m x xs) else ok (hung m x xs))
  unfolding insert_chain get_pos hung
  insert_chain-hung r m x xs z =
      let p = prime_at m.num_point in
      let within : slot p x.key < length m.head = omega (
        arith,
        z.width,
        mod-lt (hash x.key) {m = p} (omega (arith, prime_at-bounds m.num_point z.known)),
      ) in
      let next : incr m.sum ≡ m.sum + 1 = omega (arith, z.small) in
      rw (prime-some m.num_point z.known, at-some m.head (slot p x.key) within, next) refl

  hung-IsSized :
      (m : Mhash) (x : Info) (xs : List Info)
      → IsSized m
      → m.sum + 2 < prime_at m.num_point
      → IsSized (hung m x xs)
  unfolding hung
  hung-IsSized m x xs z h = record {
    known = z.known;
    width = length-set m.head _ _ ∙ z.width;
    small = omega (arith, prime_at-bounds m.num_point z.known);
  }

  -- The loop's bound is the length of the old array as long as its table takes the next prime.
  bound-eq : (k np : ℕ) → np < 17 → np ≡ k + 1 → prime (np - 1) ≡ ok (prime_at k)
  bound-eq k np h e = let q : np - 1 ≡ k = omega arith in rw q (prime-some k (omega arith))

  -- The loop moves all chains if the count of insertions stays below the next limit,
  move_chains-placed :
      (r : Mhash → Outcome Mhash) (cs : List (List Info)) (i k : ℕ) (m : Mhash)
      → IsSized m
      → m.num_point ≡ k + 1
      → i + length cs ≡ prime_at k
      → m.sum + used cs + 1 < prime_at m.num_point
      → move_chains hash r cs i m
        ≡ ok (record m { head = placed (prime_at m.num_point) cs m.head; sum = m.sum + used cs })
  unfolding move_chains placed used move_chain hung
  move_chains-placed r [] i k m z e w h =
      let same : m.sum + 0 ≡ m.sum = omega arith in
      rw (bound-eq k m.num_point z.known e, ltb-false {a = i} {b = prime_at k} (omega arith), same)
        refl
  move_chains-placed r ([] ∷ cs) i k m z e w h =
      rw (bound-eq k m.num_point z.known e, ltb-true {a = i} {b = prime_at k} (omega arith))
        (move_chains-placed r cs (i + 1) k m z e (omega arith) h)
  move_chains-placed r ((x ∷ xs) ∷ cs) i k m z e w h =
      rw
        (
          bound-eq k m.num_point z.known e,
          ltb-true {a = i} {b = prime_at k} (omega arith),
          insert_chain-hung r m x xs z,
          eq_false {a = m.sum + 1} {b = prime_at m.num_point - 1} (omega arith),
        )
        (move_chains-placed r cs (i + 1) k (hung m x xs) (hung-IsSized m x xs z (omega arith)) e
            (omega arith) (omega arith)
          ∙ ap
              (λ (s : ℕ). ok (record m {
                head = placed (prime_at m.num_point) cs (hang (prime_at m.num_point) m.head x xs);
                sum = s;
              }))
              (omega arith))

  -- and runs past the end of the old array if it does not.
  move_chains-cascade :
      (r : Mhash → Outcome Mhash) (cs : List (List Info)) (i k : ℕ) (m : Mhash)
      → ((t : Mhash) → Ends (t.num_point + 1) (r t))
      → Grows r
      → IsSized m
      → m.num_point ≡ k + 1
      → i + length cs ≡ prime_at k
      → m.sum + 1 < prime_at m.num_point
      → prime_at m.num_point ≤ m.sum + used cs + 1
      → move_chains hash r cs i m ≡ fault out_of_range
  unfolding move_chains used move_chain hung
  move_chains-cascade r [] i k m g gr z e w s h = absurd (omega arith)
  move_chains-cascade r ([] ∷ cs) i k m g gr z e w s h =
      rw (bound-eq k m.num_point z.known e, ltb-true {a = i} {b = prime_at k} (omega arith))
        (move_chains-cascade r cs (i + 1) k m g gr z e (omega arith) s h)
  move_chains-cascade r ((x ∷ xs) ∷ cs) i k m g gr z e w s h =
      rw
        (
          bound-eq k m.num_point z.known e,
          ltb-true {a = i} {b = prime_at k} (omega arith),
          insert_chain-hung r m x xs z,
        )
        (elim (eq-cases (m.sum + 1) (prime_at m.num_point - 1)) [
          | inr more ↦ rw (eq_false more) (
              move_chains-cascade r cs (i + 1) k (hung m x xs) g gr
                (hung-IsSized m x xs z (omega arith)) e (omega arith) (omega arith) (omega arith))
          | inl full ↦ rw (eq_true full) (elim (g (hung m x xs)) [
            | inl broken ↦ rw broken
            | inr (t, grown, le) ↦
                rw grown (move_chains-overrun hash r cs (i + 1) k t gr (omega arith) (omega arith))
          ])
        ])

  -- The table after all chains have been moved to the array of the next prime.
  unfoldable pub grown : Mhash → Mhash
  grown m =
      let p = prime_at (m.num_point + 1) in
      record {
        head = placed p m.head (replicate p []);
        num_point = m.num_point + 1;
        sum = m.sum + used m.head;
      }

  -- From a table that is as wide as its prime, with a count below the next limit and a prime left,
  -- `rehash` counts every chain that it moves as one more insertion: it ends, with all chains
  -- moved, if that count stays below the next limit, and else runs out of bounds, whatever fuel it
  -- has.
  pub rehash-grown :
      (fuel : ℕ) (m : Mhash)
      → m.num_point < 16
      → length m.head ≡ prime_at m.num_point
      → m.sum + 1 < prime_at (m.num_point + 1)
      → rehash hash (suc fuel) m ≡ (
          if ltb (m.sum + used m.head + 1) (prime_at (m.num_point + 1))
          then ok (grown m)
          else fault out_of_range)
  unfolding rehash grown
  rehash-grown fuel m few width room =
      let k = m.num_point in
      let p = prime_at (k + 1) in
      let m₀ : Mhash = record m { head = replicate p []; num_point = k + 1 } in
      let z : IsSized m₀ = record {
        known = omega arith;
        width = length-replicate p [];
        small = omega (arith, prime_at-bounds (k + 1) (omega arith));
      } in
      elim (lt-cases (m.sum + used m.head + 1) p) [
        | inl fits ↦
            rw (prime-some (k + 1) (omega arith), ltb-true fits)
              (move_chains-placed (rehash hash fuel) m.head 0 k m₀ z refl (omega arith) fits)
        | inr over ↦
            rw (prime-some (k + 1) (omega arith), ltb-false over)
              (move_chains-cascade (rehash hash fuel) m.head 0 k m₀ (rehash-Ends hash fuel)
                (rehash-Grows hash fuel) z refl (omega arith) room over)
      ]

  -- The last prime has no successor.
  pub rehash-last :
      (fuel : ℕ) (m : Mhash) → 16 ≤ m.num_point → rehash hash fuel m ≡ fault out_of_range
  unfolding rehash
  rehash-last zero m h = refl
  rehash-last (suc fuel) m h = rw (prime-none (m.num_point + 1) (omega arith))
