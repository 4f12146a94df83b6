-- ===== src/ThreadPool/Ending.antt =====
-- The destructor as a whole: how the moves of a pool end that is being destroyed.
use grit.Common.{
  length, get_elem?, some-injective, none-ne-some, ℕ, ◌+◌, ◌*◌, ◌≤◌, ◌<◌, ◌≡◌, refl, sym, subst,
  ◌∙◌, ◌⊎◌, inl, inr, true, none, some, List, [], ◌∷◌, arith,
}
use grit.ThreadPool.{Worker, testing, waiting, working, gone, ThreadPool, move}
use grit.ThreadPool.Moves.{Moves, IsStuck, Moves-IsStuck, Moves-bounded}
use grit.ThreadPool.Shutdown.{moves_left, starts_left, sum_of, move-Drains}

module _ {A : Type 0} where
  -- At most `n` tasks will have been started.
  record Closing (n : ℕ) (p : ThreadPool A) : Type 0 where
    stopped : p.stop ≡ true
    few : length p.started + sum_of starts_left p.workers ≤ n

  alive : (p : ThreadPool A) (i : ℕ) (w : Worker A) → (w ≡ gone) ⊎ (0 < moves_left w)
  alive p i testing = inr (omega arith)
  alive p i waiting = inr (omega arith)
  alive p i (working t) = inr (omega arith)
  alive p i gone = inl refl

  gone-stays : (p : ThreadPool A) (i : ℕ) → move i gone p ≡ none
  unfolding move
  gone-stays p i = refl

  move-Closing :
      (n : ℕ) (p q : ThreadPool A) (i : ℕ) (w : Worker A)
      → Closing n p
      → get_elem? p.workers i ≡ some w
      → move i w p ≡ some q
      → Closing n q × (sum_of moves_left q.workers < sum_of moves_left p.workers)
  move-Closing n p q i w c here moved = elim (alive p i w) [
    | inl ended ↦
        absurd (none-ne-some (sym (gone-stays p i) ∙ subst (λ v. move i v p ≡ some q) ended moved))
    | inr left ↦
        let (r, e, d) = move-Drains p i w c.stopped here left in
        subst
          (λ (x : ThreadPool A).
            Closing n x × (sum_of moves_left x.workers < sum_of moves_left p.workers))
          (some-injective (sym e ∙ moved))
          (record { stopped = d.still; few = omega (arith, c.few, d.starts) }, d.fewer)
  ]

  all_gone :
      (n : ℕ) (q : ThreadPool A)
      → Closing n q
      → IsStuck q
      → (i : ℕ) (w : Worker A) → get_elem? q.workers i ≡ some w
      → w ≡ gone
  all_gone n q c stuck i w here = elim (alive q i w) [
    | inl ended ↦ ended
    | inr left ↦
        let (r, e, d) = move-Drains q i w c.stopped here left in
        absurd (none-ne-some (sym (stuck i w here) ∙ e))
  ]

  sum_of-moves_left : (ws : List (Worker A)) → sum_of moves_left ws ≤ 3 * length ws
  unfolding sum_of
  sum_of-moves_left [] = omega arith
  sum_of-moves_left (testing ∷ ws) = omega (arith, sum_of-moves_left ws)
  sum_of-moves_left (waiting ∷ ws) = omega (arith, sum_of-moves_left ws)
  sum_of-moves_left (working t ∷ ws) = omega (arith, sum_of-moves_left ws)
  sum_of-moves_left (gone ∷ ws) = omega (arith, sum_of-moves_left ws)

  -- What the calls of `join` wait for.
  pub record Joined (p q : ThreadPool A) : Type 0 where
    pub ended : (i : ℕ) (w : Worker A) → get_elem? q.workers i ≡ some w → w ≡ gone
    pub few_started : length q.started ≤ length p.started + sum_of starts_left p.workers

  stuck-Joined :
      (p q : ThreadPool A)
      → Closing (length p.started + sum_of starts_left p.workers) q
      → IsStuck q
      → Joined p q
  stuck-Joined p q c stuck = record {
    ended = all_gone (length p.started + sum_of starts_left p.workers) q c stuck;
    few_started = omega (arith, c.few);
  }

  -- A pool that is being destroyed: whichever workers move, no sequence of moves is longer than three
  -- for each worker; where it cannot be continued, all workers have ended, so that the calls of `join`
  -- return, and no more tasks have been started than there were workers at the condition variable; and
  -- some sequence gets there.
  pub Moves-Joined :
      (p : ThreadPool A)
      → p.stop ≡ true
      → ((k : ℕ) (q : ThreadPool A) → Moves k p q → k ≤ 3 * length p.workers)
        × ((k : ℕ) (q : ThreadPool A) → Moves k p q → IsStuck q → Joined p q)
        × ((k : ℕ) × (q : ThreadPool A) × Moves k p q × Joined p q)
  Moves-Joined p stopped =
      let n = length p.started + sum_of starts_left p.workers in
      let left : ThreadPool A → ℕ = λ q. sum_of moves_left q.workers in
      let c : Closing n p = record { stopped = stopped; few = omega arith } in
      let bounded = λ (k : ℕ) (q : ThreadPool A) (run : Moves k p q).
        Moves-bounded (Closing n) left (move-Closing n) k p q c run in
      let (k, q, run, stuck) =
        Moves-IsStuck (Closing n) left (move-Closing n) (left p) p c (omega arith) in
      (
        λ k q run. omega (arith, (bounded k q run).1, sum_of-moves_left p.workers),
        λ k q run stuck. stuck-Joined p q (bounded k q run).0 stuck,
        (k, q, run, stuck-Joined p q (bounded k q run).0 stuck),
      )
