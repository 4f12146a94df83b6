-- ===== src/Hash/Insert.antt =====
-- The table between calls, and `insert`.
use grit.Common.{
  ltb, ◌==◌, if◌then◌else◌, lt-cases, eq-cases, ltb-true, ltb-false, eq_true, eq_false, length,
  get_or, replicate, length-set, length-replicate, get_or-replicate, get_or-set, ◌>>=◌,
  ok-injective, ok-ne-fault, Text, ℕ, ◌+◌, ◌-◌, ◌≤◌, ◌<◌, ◌≡◌, refl, sym, ◌∙◌, inl, inr, true, not,
  ◌&&◌, ◌||◌, List, [], ◌∷◌, ◌++◌, arith, ok, fault, out_of_range,
}
use native.Mathlib.Nat.{mod-lt}
use grit.Hash.{Info, Mhash, mhash, get_pos, insert, rehash, all_primes, is_null, exist}
use grit.Hash.Primes.{prime_at, prime-some, prime_at-bounds, prime_at-lt-next}
use grit.Hash.Rehash.{
  used, at-some, slot, IsSized, hung, insert_chain-hung, grown, rehash-grown, rehash-last,
}
use grit.Hash.Entries.{
  entries, entries-replicate, entries-hang, length-placed, entries-placed, gathered, get_or-placed,
}

-- The count never falls behind the nodes, and stays below the limit at which the table grows.
pub record IsValid (m : Mhash) : Type 0 where
  pub known : m.num_point < 17
  pub width : length m.head ≡ prime_at m.num_point
  pub room : m.sum + 1 < prime_at m.num_point
  pub counted : entries m.head ≤ m.sum

pub mhash-IsValid : IsValid mhash
unfolding mhash entries prime_at
mhash-IsValid = record {
  known = omega arith;
  width = refl;
  room = omega arith;
  counted = omega arith;
}

pub IsValid-IsSized : {m : Mhash} → IsValid m → IsSized m
IsValid-IsSized {m} v = record {
  known = v.known;
  width = v.width;
  small = omega (arith, v.room, prime_at-bounds m.num_point v.known);
}

module _ (hash : Text → ℕ) where
  abbrev node : Text → ℕ → Info
  node k l = record { key = k; lsn = l }

  -- The new node goes to the end of the chain of its key.
  unfoldable pub added : Mhash → Text → ℕ → Mhash
  added m k l = hung hash m (node k l) []

  -- `insert` into a valid table in full: below the limit it adds the node; at the limit it also
  -- moves all chains to the array of the next prime, unless no prime is left or too many chains
  -- have to be moved, when it runs out of bounds.
  pub insert_lem :
      (m : Mhash) (k : Text) (l : ℕ)
      → IsValid m
      → insert hash m k l ≡ (
          if ltb (m.sum + 2) (prime_at m.num_point)
          then ok (added m k l)
          else if ltb m.num_point 16
              && ltb (m.sum + 1 + used (added m k l).head + 1) (prime_at (m.num_point + 1))
          then ok (grown hash (added m k l))
          else fault out_of_range)
  unfolding insert added hung
  insert_lem m k l v =
      let full : Mhash = added m k l in
      let p = prime_at m.num_point in
      elim (lt-cases (m.sum + 2) p) [
        | inl below ↦
            rw
              (
                insert_chain-hung hash (rehash hash all_primes) m (node k l) [] (IsValid-IsSized v),
                ltb-true below,
                eq_false {a = m.sum + 1} {b = p - 1} (omega arith),
              )
              refl
        | inr limit ↦
            rw
              (
                insert_chain-hung hash (rehash hash all_primes) m (node k l) [] (IsValid-IsSized v),
                ltb-false limit,
                eq_true {a = m.sum + 1} {b = p - 1} (omega (arith, v.room)),
              )
              (elim (lt-cases m.num_point 16) [
                | inr last ↦ rw (ltb-false last) (rehash-last hash all_primes full last)
                | inl more ↦
                    let room : m.sum + 1 + 1 < prime_at (m.num_point + 1) =
                      omega (arith, v.room, prime_at-lt-next m.num_point more) in
                    rw (ltb-true more)
                      (rehash-grown hash 16 full more (length-set m.head _ _ ∙ v.width) room)
              ])
      ]

  pub added-IsValid :
      (m : Mhash) (k : Text) (l : ℕ)
      → IsValid m
      → m.sum + 2 < prime_at m.num_point
      → IsValid (added m k l)
  unfolding added hung
  added-IsValid m k l v h = record {
    known = v.known;
    width = length-set m.head _ _ ∙ v.width;
    room = omega arith;
    counted = omega (
      arith,
      v.counted,
      entries-hang hash (prime_at m.num_point) m.head (node k l) [] (omega arith) v.width,
    );
  }

  grown-IsValid :
      (m : Mhash) (k : Text) (l : ℕ)
      → IsValid m
      → m.num_point < 16
      → m.sum + 1 + used (added m k l).head + 1 < prime_at (m.num_point + 1)
      → IsValid (grown hash (added m k l))
  unfolding grown added hung
  grown-IsValid m k l v more fits =
      let p = prime_at (m.num_point + 1) in
      let none_yet : List (List Info) = replicate p [] in
      let pos : 0 < p = omega arith in
      record {
        known = omega arith;
        width = length-placed hash p (added m k l).head none_yet ∙ length-replicate p [];
        room = fits;
        counted = omega (
          arith,
          v.counted,
          v.room,
          entries-placed hash p (added m k l).head none_yet pos (length-replicate p []),
          entries-replicate p,
          entries-hang hash (prime_at m.num_point) m.head (node k l) [] (omega arith) v.width,
        );
      }

  insert_limit :
      (m m' : Mhash) (k : Text) (l : ℕ)
      → IsValid m
      → prime_at m.num_point ≤ m.sum + 2
      → insert hash m k l ≡ ok m'
      → (m.num_point < 16)
        × (m.sum + 1 + used (added m k l).head + 1 < prime_at (m.num_point + 1))
        × (m' ≡ grown hash (added m k l))
  insert_limit m m' k l v limit e =
      let e₁ = rw (ltb-false limit) at (sym (insert_lem m k l v) ∙ e) in
      elim (lt-cases m.num_point 16) [
        | inr last ↦ absurd (ok-ne-fault (sym (rw (ltb-false last) at e₁)))
        | inl more ↦
            let e₂ = rw (ltb-true more) at e₁ in
            elim (lt-cases (m.sum + 1 + used (added m k l).head + 1) (prime_at (m.num_point + 1))) [
              | inl fits ↦ (more, fits, sym (ok-injective (rw (ltb-true fits) at e₂)))
              | inr over ↦ absurd (ok-ne-fault (sym (rw (ltb-false over) at e₂)))
            ]
      ]

  -- Where `insert` returns, from a valid table, the table is valid again.
  pub insert-IsValid :
      (m m' : Mhash) (k : Text) (l : ℕ) → IsValid m → insert hash m k l ≡ ok m' → IsValid m'
  insert-IsValid m m' k l v e = elim (lt-cases (m.sum + 2) (prime_at m.num_point)) [
    | inl below ↦
        let q = ok-injective (rw (ltb-true below) at (sym (insert_lem m k l v) ∙ e)) in
        rw (← q) (added-IsValid m k l v below)
    | inr limit ↦
        let (more, fits, q) = insert_limit m m' k l v limit e in
        rw q (grown-IsValid m k l v more fits)
  ]

  not_null-snoc : (c : List Info) (x : Info) → not (is_null (c ++ x ∷ [])) ≡ true
  not_null-snoc [] x = refl
  not_null-snoc (y ∷ c) x = refl

  -- After an insertion into a valid table below its limit a key is found if its chain is that of
  -- the new key, or if it was found before.
  pub exist-insert :
      (m : Mhash) (k j : Text) (l : ℕ)
      → IsValid m
      → m.sum + 2 < prime_at m.num_point
      → (insert hash m k l >>= λ m'. exist hash m' j) ≡ (
          exist hash m j >>= λ old.
          ok (slot hash (prime_at m.num_point) k == slot hash (prime_at m.num_point) j || old))
  unfolding exist get_pos added hung
  exist-insert m k j l v below =
      let p = prime_at m.num_point in
      let pos : 0 < p = omega arith in
      let a = slot hash p k in
      let b = slot hash p j in
      let a_in : a < length m.head = omega (arith, v.width, mod-lt (hash k) {m = p} pos) in
      let b_in : b < length m.head = omega (arith, v.width, mod-lt (hash j) {m = p} pos) in
      rw (insert_lem m k l v, ltb-true below)
        (rw (prime-some m.num_point v.known, at-some m.head b b_in)
          (rw
            (
              at-some (added m k l).head b
                  (rw (length-set m.head a (get_or m.head a [] ++ node k l ∷ [])) b_in),
              get_or-set m.head a b _ [] a_in,
            )
            (elim (eq-cases a b) [
              | inl e ↦ rw (eq_true e, not_null-snoc (get_or m.head a []) (node k l))
              | inr n ↦ rw (eq_false n) refl
            ])))

  -- An insertion into a valid table at its limit that returns leaves in each chain of the new
  -- array, one after the other, those chains of the old one whose first key belongs there, each as
  -- a whole.
  pub get_or-insert_grown :
      (m m' : Mhash) (k : Text) (l i : ℕ)
      → IsValid m
      → prime_at m.num_point ≤ m.sum + 2
      → insert hash m k l ≡ ok m'
      → get_or m'.head i [] ≡ gathered hash (prime_at (m.num_point + 1)) i (added m k l).head
  unfolding grown added hung
  get_or-insert_grown m m' k l i v limit e =
      let (more, fits, q) = insert_limit m m' k l v limit e in
      let p = prime_at (m.num_point + 1) in
      rw
        (
          q,
          get_or-placed hash p i (added m k l).head (replicate p []) (omega arith)
              (length-replicate p []),
          get_or-replicate {A = List Info} p i [],
        )
        refl
