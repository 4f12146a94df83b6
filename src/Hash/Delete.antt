-- ===== src/Hash/Delete.antt =====
-- `delLessThan` and `exist`, as the conflict check calls them.
use grit.Common.{
  if◌then◌else◌, ==_refl, Bool-cases, length, get_or, set, length-set, get_or-set, ok-injective,
  ok-ne-fault, decr, slt, Text, ℕ, ◌+◌, ◌-◌, ◌≤◌, ◌<◌, ◌≡◌, refl, sym, ap, ◌∙◌, inl, inr, true,
  false, List, [], ◌∷◌, arith, ok, fault, null_pointer,
}
use native.Mathlib.Nat.{mod-lt}
use grit.Hash.{Info, Mhash, del_loop, del_less_than, get_pos, is_null, exist}
use grit.Hash.Primes.{prime_at, prime-some, prime_at-bounds}
use grit.Hash.Rehash.{at-some, slot}
use grit.Hash.Entries.{entries, entries-set}
use grit.Hash.Insert.{IsValid}

-- The chain from the first node on whose lsn is not less.
pub newer : ℕ → List Info → List Info
newer lsn [] = []
newer lsn (x ∷ xs) = let rest = newer lsn xs in if slt x.lsn lsn then rest else x ∷ xs

length-newer-le : (lsn : ℕ) (c : List Info) → length (newer lsn c) ≤ length c
unfolding newer
length-newer-le lsn [] = omega arith
length-newer-le lsn (x ∷ xs) = ground (arith, length-newer-le lsn xs)

-- The loop: it stops at a newer node, or falls off the chain, and counts what it deletes.
pub del_loop_lem :
    (lsn : ℕ) (c : List Info) (sum : ℕ)
    → length c ≤ sum
    → sum < 97
    → del_loop lsn c sum ≡ (
        if is_null (newer lsn c)
        then fault null_pointer
        else ok (newer lsn c, sum + length (newer lsn c) - length c))
unfolding del_loop newer
del_loop_lem lsn [] sum h k = refl
del_loop_lem lsn (x ∷ xs) sum h k = elim (Bool-cases (slt x.lsn lsn)) [
  | inl old ↦
      let less : decr sum ≡ sum - 1 = omega arith in
      rw (old, less)
        (del_loop_lem lsn xs (sum - 1) (omega arith) (omega arith)
          ∙ ap
              (λ (s : ℕ).
                if is_null (newer lsn xs) then fault null_pointer else ok (newer lsn xs, s))
              (omega arith))
  | inr new ↦ rw new (ap (λ (s : ℕ). ok (x ∷ xs, s)) (omega arith))
]

length-le-entries :
    (h : List (List Info)) (i : ℕ) → i < length h → length (get_or h i []) ≤ entries h
length-le-entries h i lt = omega (arith, entries-set h i [] lt)

module _ (hash : Text → ℕ) where
  -- The chain of a key.
  pub chain_of : Mhash → Text → List Info
  chain_of m k = get_or m.head (slot hash (prime_at m.num_point) k) []

  -- `delLessThan` on a valid table in full: a null pointer is read unless the chain of the key has
  -- a node whose lsn is not less; then the nodes before the first such node go, whatever their keys
  -- are.
  pub del_less_than_lem :
      (m : Mhash) (k : Text) (lsn : ℕ)
      → IsValid m
      → del_less_than hash m k lsn ≡ (
          let c = chain_of m k in
          if is_null (newer lsn c)
          then fault null_pointer
          else ok (record m {
            head = set m.head (slot hash (prime_at m.num_point) k) (newer lsn c);
            sum = m.sum + length (newer lsn c) - length c;
          }))
  unfolding del_less_than get_pos chain_of
  del_less_than_lem m k lsn v =
      let p = prime_at m.num_point in
      let i = slot hash p k in
      let c = get_or m.head i [] in
      let within : i < length m.head =
        omega (arith, v.width, v.room, mod-lt (hash k) {m = p} (omega arith)) in
      let loop =
        del_loop_lem lsn c m.sum (omega (arith, v.counted, length-le-entries m.head i within))
          (omega (arith, v.room, prime_at-bounds m.num_point v.known)) in
      rw (prime-some m.num_point v.known, at-some m.head i within, loop)
        (elim (Bool-cases (is_null (newer lsn c))) [ inl e ↦ rw e refl | inr e ↦ rw e refl ])

  deleted :
      (m m' : Mhash) (k : Text) (lsn : ℕ)
      → IsValid m
      → del_less_than hash m k lsn ≡ ok m'
      → let c = chain_of m k in
        (is_null (newer lsn c) ≡ false)
        × (m' ≡ record m {
          head = set m.head (slot hash (prime_at m.num_point) k) (newer lsn c);
          sum = m.sum + length (newer lsn c) - length c;
        })
  deleted m m' k lsn v e =
      let e' = sym (del_less_than_lem m k lsn v) ∙ e in
      elim (Bool-cases (is_null (newer lsn (chain_of m k)))) [
        | inl gone ↦ absurd (ok-ne-fault (sym (rw gone at e')))
        | inr left ↦ (left, sym (ok-injective (rw left at e')))
      ]

  -- Where `delLessThan` returns, from a valid table, the table is valid again.
  pub del_less_than-IsValid :
      (m m' : Mhash) (k : Text) (lsn : ℕ)
      → IsValid m
      → del_less_than hash m k lsn ≡ ok m'
      → IsValid m'
  unfolding chain_of
  del_less_than-IsValid m m' k lsn v e =
      let p = prime_at m.num_point in
      let i = slot hash p k in
      let c = get_or m.head i [] in
      let within : i < length m.head =
        omega (arith, v.width, v.room, mod-lt (hash k) {m = p} (omega arith)) in
      let (left, q) = deleted m m' k lsn v e in
      rw q (record {
        known = v.known;
        width = length-set m.head i (newer lsn c) ∙ v.width;
        room = omega (arith, v.room, length-newer-le lsn c);
        counted = omega (
          arith,
          v.counted,
          entries-set m.head i (newer lsn c) within,
          length-newer-le lsn c,
          length-le-entries m.head i within,
        );
      })

  -- Where `delLessThan` returns, from a valid table, the key that it was called for is found.
  pub exist-del_less_than :
      (m m' : Mhash) (k : Text) (lsn : ℕ)
      → IsValid m
      → del_less_than hash m k lsn ≡ ok m'
      → exist hash m' k ≡ ok true
  unfolding exist get_pos chain_of
  exist-del_less_than m m' k lsn v e =
      let p = prime_at m.num_point in
      let i = slot hash p k in
      let c = get_or m.head i [] in
      let within : i < length m.head =
        omega (arith, v.width, v.room, mod-lt (hash k) {m = p} (omega arith)) in
      let (left, q) = deleted m m' k lsn v e in
      let still : i < length (set m.head i (newer lsn c)) =
        rw (length-set m.head i (newer lsn c)) within in
      rw (
        q,
        prime-some m.num_point v.known,
        at-some (set m.head i (newer lsn c)) i still,
        get_or-set m.head i i (newer lsn c) [] within,
        ==_refl i,
        left,
      )
