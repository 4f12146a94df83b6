-- ===== src/ThreadPool/Moves.antt =====
-- Sequences of moves of the workers, with nothing handed over in between.
use grit.Common.{
  Option-cases, get_elem?, some-injective, none-ne-some, ℕ, zero, suc, ◌+◌, ◌≤◌, ◌<◌, ◌≡◌, refl,
  subst, ◌⊎◌, inl, inr, Option, none, some, List, [], ◌∷◌, arith,
}
use grit.ThreadPool.{Worker, ThreadPool, move}

module _ {A : Type 0} where
  -- `k` moves, each by whatever worker.
  pub data Moves : ℕ → ThreadPool A → ThreadPool A → Type 0 where
    rests : {p : ThreadPool A} → Moves 0 p p
    makes :
        {k : ℕ} {p q r : ThreadPool A} (i : ℕ) (w : Worker A)
        → get_elem? p.workers i ≡ some w
        → move i w p ≡ some q
        → Moves k q r
        → Moves (suc k) p r

  -- No worker can move.
  abbrev pub IsStuck : ThreadPool A → Type 0
  IsStuck p = (i : ℕ) (w : Worker A) → get_elem? p.workers i ≡ some w → move i w p ≡ none

  -- Some worker can move, or none can.
  pub find_move :
      {B : Type 0} (f : ℕ → Worker A → Option B) (ws : List (Worker A))
      → ((i : ℕ) (w : Worker A) → get_elem? ws i ≡ some w → f i w ≡ none)
        ⊎ ((i : ℕ) × (w : Worker A) × (b : B) × (get_elem? ws i ≡ some w) × (f i w ≡ some b))
  find_move f [] = inl λ i w e. absurd (none-ne-some e)
  find_move f (x ∷ ws) = elim (Option-cases (f 0 x)) [
    | inr (b, moved) ↦ inr (0, x, b, refl, moved)
    | inl stays ↦ elim (find_move (λ i. f (suc i)) ws) [
      | inr (i, w, b, e, moved) ↦ inr (suc i, w, b, e, moved)
      | inl nobody ↦ inl λ i w e. at_each i w e stays nobody
    ]
  ]
    where
      at_each :
          (i : ℕ) (w : Worker A)
          → get_elem? (x ∷ ws) i ≡ some w
          → f 0 x ≡ none
          → ((j : ℕ) (v : Worker A) → get_elem? ws j ≡ some v → f (suc j) v ≡ none)
          → f i w ≡ none
      at_each zero w e stays nobody = subst (λ v. f 0 v ≡ none) (some-injective e) stays
      at_each (suc i) w e stays nobody = nobody i w e

  -- Where each move leaves fewer to be made, some sequence of moves ends with a stuck pool,
  pub Moves-IsStuck :
      (Holds : ThreadPool A → Type 0) (left : ThreadPool A → ℕ)
      → ((p q : ThreadPool A) (i : ℕ) (w : Worker A)
          → Holds p
          → get_elem? p.workers i ≡ some w
          → move i w p ≡ some q
          → Holds q × (left q < left p))
      → (fuel : ℕ) (p : ThreadPool A) → Holds p
      → left p ≤ fuel
      → (k : ℕ) × (q : ThreadPool A) × Moves k p q × IsStuck q
  Moves-IsStuck Holds left less zero p h le = elim (find_move (λ i w. move i w p) p.workers) [
    | inl stuck ↦ (0, p, rests, stuck)
    | inr (i, w, q, here, moved) ↦ absurd (omega (arith, (less p q i w h here moved).1))
  ]
  Moves-IsStuck Holds left less (suc fuel) p h le = elim (find_move (λ i w. move i w p) p.workers) [
    | inl stuck ↦ (0, p, rests, stuck)
    | inr (i, w, q, here, moved) ↦
        let (h', fewer) = less p q i w h here moved in
        let (k, r, run, stuck) = Moves-IsStuck Holds left less fuel q h' (omega arith) in
        (suc k, r, makes i w here moved run, stuck)
  ]

  -- and no sequence is longer than the moves that were to be made.
  pub Moves-bounded :
      (Holds : ThreadPool A → Type 0) (left : ThreadPool A → ℕ)
      → ((p q : ThreadPool A) (i : ℕ) (w : Worker A)
          → Holds p
          → get_elem? p.workers i ≡ some w
          → move i w p ≡ some q
          → Holds q × (left q < left p))
      → (k : ℕ) (p q : ThreadPool A) → Holds p
      → Moves k p q
      → Holds q × (k + left q ≤ left p)
  Moves-bounded Holds left less zero p q h rests = (h, omega arith)
  Moves-bounded Holds left less (suc k) p q h (makes {q = r} i w here moved run) =
      let (h', fewer) = less p r i w h here moved in
      let (h'', rest) = Moves-bounded Holds left less k r q h' run in (h'', omega arith)
