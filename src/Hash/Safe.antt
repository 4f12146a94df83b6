-- ===== src/Hash/Safe.antt =====
-- The table reads null pointers and past the ends of arrays, but never a node that it has deleted.
use grit.Common.{
  ltb, ◌==◌, Bool-cases, Option-cases, get_elem?, set, Outcome, ◌>>=◌, Safely, Safely->>=, incr,
  decr, slt, Text, ℕ, zero, suc, ◌+◌, ◌-◌, inl, inr, List, [], ◌∷◌, ◌++◌,
}
use grit.Hash.{
  Info, Mhash, prime_num, all_primes, prime, at, get_pos, del_loop, insert_chain, move_chain,
  move_chains, rehash, insert, exist, del_less_than,
}

abbrev pub Anything {ℓ} : {A : Type ℓ} → A → Type 0
Anything a = Unit

abbrev Safe {ℓ} : {A : Type ℓ} → Outcome A → Type 0
Safe r = Safely Anything r

prime-Safe : (i : ℕ) → Safe (prime i)
unfolding prime
prime-Safe i = elim (Option-cases (get_elem? prime_num i)) [
  | inl e ↦ rw e tt
  | inr (p, e) ↦ rw e tt
]

at-Safe : (head : List (List Info)) (i : ℕ) → Safe (at head i)
unfolding at
at-Safe head i = elim (Option-cases (get_elem? head i)) [ inl e ↦ rw e tt | inr (p, e) ↦ rw e tt ]

and_then :
    {A B : Type 0} (m : Outcome A) (f : A → Outcome B)
    → Safe m
    → ((a : A) → Safe (f a))
    → Safe (m >>= f)
and_then m f h k = Safely->>= Anything Anything m f h λ a _ _. k a

del_loop-Safe : (lsn : ℕ) (c : List Info) (sum : ℕ) → Safe (del_loop lsn c sum)
unfolding del_loop
del_loop-Safe lsn [] sum = tt
del_loop-Safe lsn (x ∷ xs) sum = elim (Bool-cases (slt x.lsn lsn)) [
  | inl old ↦ rw old (del_loop-Safe lsn xs (decr sum))
  | inr new ↦ rw new tt
]

module _ (hash : Text → ℕ) where
  get_pos-Safe : (m : Mhash) (k : Text) → Safe (get_pos hash m k)
  unfolding get_pos
  get_pos-Safe m k = and_then (prime m.num_point) _ (prime-Safe m.num_point) λ p. tt

  insert_chain-Safe :
      (r : Mhash → Outcome Mhash) (m : Mhash) (x : Info) (xs : List Info)
      → ((t : Mhash) → Safe (r t))
      → Safe (insert_chain hash r m x xs)
  unfolding insert_chain
  insert_chain-Safe r m x xs h = and_then (get_pos hash m x.key) _ (get_pos-Safe m x.key) λ pos.
      and_then (at m.head pos) _ (at-Safe m.head pos) λ bucket.
        and_then (prime m.num_point) _ (prime-Safe m.num_point) λ p.
          elim (Bool-cases (incr m.sum == p - 1)) [
            | inl e ↦
                rw e (h (record m { head = set m.head pos (bucket ++ x ∷ xs); sum = incr m.sum }))
            | inr e ↦ rw e tt
          ]

  move_chains-Safe :
      (r : Mhash → Outcome Mhash) (cs : List (List Info)) (i : ℕ) (m : Mhash)
      → ((t : Mhash) → Safe (r t))
      → Safe (move_chains hash r cs i m)
  unfolding move_chains move_chain
  move_chains-Safe r [] i m h =
      and_then (prime (m.num_point - 1)) _ (prime-Safe (m.num_point - 1))
        λ bound. elim (Bool-cases (ltb i bound)) [ inl e ↦ rw e tt | inr e ↦ rw e tt ]
  move_chains-Safe r ([] ∷ cs) i m h =
      and_then (prime (m.num_point - 1)) _ (prime-Safe (m.num_point - 1)) λ bound.
        elim (Bool-cases (ltb i bound)) [
          | inl e ↦ rw e (move_chains-Safe r cs (i + 1) m h)
          | inr e ↦ rw e tt
        ]
  move_chains-Safe r ((x ∷ xs) ∷ cs) i m h =
      and_then (prime (m.num_point - 1)) _ (prime-Safe (m.num_point - 1)) λ bound.
        elim (Bool-cases (ltb i bound)) [
          | inl e ↦ rw e (
              and_then (insert_chain hash r m x xs) _ (insert_chain-Safe r m x xs h)
                λ m'. move_chains-Safe r cs (i + 1) m' h)
          | inr e ↦ rw e tt
        ]

  rehash-Safe : (fuel : ℕ) (m : Mhash) → Safe (rehash hash fuel m)
  unfolding rehash
  rehash-Safe zero m = tt
  rehash-Safe (suc fuel) m =
      and_then (prime (m.num_point + 1)) _ (prime-Safe (m.num_point + 1))
        λ p. move_chains-Safe (rehash hash fuel) m.head 0 _ (rehash-Safe fuel)

  pub insert-Safely : (m : Mhash) (k : Text) (l : ℕ) → Safely Anything (insert hash m k l)
  unfolding insert
  insert-Safely m k l =
      insert_chain-Safe (rehash hash all_primes) m (record { key = k; lsn = l }) []
        (rehash-Safe all_primes)

  pub exist-Safely : (m : Mhash) (k : Text) → Safely Anything (exist hash m k)
  unfolding exist
  exist-Safely m k =
      and_then (get_pos hash m k) _ (get_pos-Safe m k)
        λ pos. and_then (at m.head pos) _ (at-Safe m.head pos) λ bucket. tt

  pub del_less_than-Safely :
      (m : Mhash) (k : Text) (l : ℕ) → Safely Anything (del_less_than hash m k l)
  unfolding del_less_than
  del_less_than-Safely m k l = and_then (get_pos hash m k) _ (get_pos-Safe m k) λ pos.
      and_then (at m.head pos) _ (at-Safe m.head pos)
        λ bucket. and_then (del_loop l bucket m.sum) _ (del_loop-Safe l bucket m.sum) λ r. tt
