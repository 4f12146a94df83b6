-- ===== src/Hash/Entries.antt =====
-- How many nodes a table holds, and which chain they stand in after it has grown.
use grit.Common.{
  ◌==◌, if◌then◌else◌, eq-cases, eq_true, eq_false, length, get_or, set, replicate, length-append,
  length-set, get_or-set, Text, ℕ, zero, suc, ◌+◌, ◌<◌, ◌≡◌, refl, sym, ◌∙◌, inl, inr, List, [],
  ◌∷◌, ◌++◌, append_assoc, append-nil, arith,
}
use native.Mathlib.Nat.{mod-lt}
use grit.Hash.{Info}
use grit.Hash.Rehash.{slot, hang, placed}

unfoldable pub entries : List (List Info) → ℕ
entries [] = 0
entries (c ∷ cs) = length c + entries cs

pub entries-replicate : (n : ℕ) → entries (replicate n []) ≡ 0
unfolding entries
entries-replicate zero = refl
entries-replicate (suc n) = rw (entries-replicate n) (omega arith)

pub entries-set :
    (h : List (List Info)) (i : ℕ) (c : List Info)
    → i < length h
    → entries (set h i c) + length (get_or h i []) ≡ entries h + length c
unfolding entries
entries-set [] i c lt = absurd (omega arith)
entries-set (x ∷ h) zero c lt = omega arith
entries-set (x ∷ h) (suc i) c lt = omega (arith, entries-set h i c (omega arith))

module _ (hash : Text → ℕ) where
  pub entries-hang :
      (p : ℕ) (h : List (List Info)) (x : Info) (xs : List Info)
      → 0 < p
      → length h ≡ p
      → entries (hang hash p h x xs) ≡ entries h + length (x ∷ xs)
  entries-hang p h x xs pos w =
      let i = slot hash p x.key in
      omega (
        arith,
        entries-set h i (get_or h i [] ++ x ∷ xs) (omega (arith, mod-lt (hash x.key) {m = p} pos)),
        length-append (get_or h i []) (x ∷ xs),
      )

  pub length-placed : (p : ℕ) (cs h : List (List Info)) → length (placed hash p cs h) ≡ length h
  unfolding placed
  length-placed p [] h = refl
  length-placed p ([] ∷ cs) h = length-placed p cs h
  length-placed p ((x ∷ xs) ∷ cs) h = length-placed p cs (hang hash p h x xs) ∙ length-set h _ _

  -- Moving the chains loses no node and makes none up.
  pub entries-placed :
      (p : ℕ) (cs h : List (List Info))
      → 0 < p
      → length h ≡ p
      → entries (placed hash p cs h) ≡ entries h + entries cs
  unfolding placed entries
  entries-placed p [] h pos w = omega arith
  entries-placed p ([] ∷ cs) h pos w = omega (arith, entries-placed p cs h pos w)
  entries-placed p ((x ∷ xs) ∷ cs) h pos w = omega (
    arith,
    entries-placed p cs (hang hash p h x xs) pos (length-set h _ _ ∙ w),
    entries-hang p h x xs pos w,
  )

  -- The chains of an array that are moved to chain `i`: those whose first key belongs there.
  unfoldable pub gathered : ℕ → ℕ → List (List Info) → List Info
  gathered p i [] = []
  gathered p i ([] ∷ cs) = gathered p i cs
  gathered p i ((x ∷ xs) ∷ cs) =
      let rest = gathered p i cs in if slot hash p x.key == i then (x ∷ xs) ++ rest else rest

  pub get_or-placed :
      (p i : ℕ) (cs h : List (List Info))
      → 0 < p
      → length h ≡ p
      → get_or (placed hash p cs h) i [] ≡ get_or h i [] ++ gathered p i cs
  unfolding placed gathered
  get_or-placed p i [] h pos w = sym (append-nil (get_or h i []))
  get_or-placed p i ([] ∷ cs) h pos w = get_or-placed p i cs h pos w
  get_or-placed p i ((x ∷ xs) ∷ cs) h pos w =
      let j = slot hash p x.key in
      let within : j < length h = omega (arith, mod-lt (hash x.key) {m = p} pos) in
      rw
        (
          get_or-placed p i cs (hang hash p h x xs) pos (length-set h j _ ∙ w),
          get_or-set h j i _ [] within,
        )
        (elim (eq-cases j i) [
          | inl e ↦ rw (eq_true e, e) (append_assoc (get_or h i []) (x ∷ xs) (gathered p i cs))
          | inr n ↦ rw (eq_false n) refl
        ])
