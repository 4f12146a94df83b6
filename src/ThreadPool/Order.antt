-- ===== src/ThreadPool/Order.antt =====
-- The tasks are started in the order in which they were handed over, each at most once.
use grit.Common.{
  Bool-cases, ok-injective, ok-ne-fault, some-injective, none-ne-some, ℕ, ◌≡◌, refl, sym, ap, subst,
  ◌∙◌, inl, inr, some, List, [], ◌∷◌, ◌++◌, append_assoc, ok,
}
use grit.ThreadPool.{
  Worker, testing, waiting, working, gone, ThreadPool, thread_pool, enqueue, shutdown, wake, move,
  Step, handed, moved, ended, Reaches, at_once, later,
}

module _ {A : Type 0} where
  abbrev pub InOrder : ThreadPool A → Type 0
  InOrder p = p.enqueued ≡ p.started ++ p.tasks

  wake-InOrder :
      (i : ℕ) (ts : List A) (p q : ThreadPool A)
      → p.enqueued ≡ p.started ++ ts
      → p.tasks ≡ ts
      → wake i ts p ≡ some q
      → InOrder q
  unfolding wake
  wake-InOrder i [] p q o same e = elim (Bool-cases p.stop) [
    | inl stopped ↦
        let e' = some-injective (rw stopped at e) in
        subst InOrder e' (o ∙ ap (λ (ts : List A). p.started ++ ts) (sym same))
    | inr on ↦ absurd (none-ne-some (rw on at e))
  ]
  wake-InOrder i (t ∷ ts) p q o same e =
      subst InOrder (some-injective e) (o ∙ sym (append_assoc p.started (t ∷ []) ts))

  move-InOrder :
      (i : ℕ) (w : Worker A) (p q : ThreadPool A) → InOrder p → move i w p ≡ some q → InOrder q
  unfolding move
  move-InOrder i testing p q o e = subst InOrder (some-injective e) o
  move-InOrder i waiting p q o e = wake-InOrder i p.tasks p q o refl e
  move-InOrder i (working task) p q o e = subst InOrder (some-injective e) o
  move-InOrder i gone p q o e = absurd (none-ne-some e)

  enqueue-InOrder : (task : A) (p q : ThreadPool A) → InOrder p → enqueue task p ≡ ok q → InOrder q
  unfolding enqueue
  enqueue-InOrder task p q o e = elim (Bool-cases p.stop) [
    | inl stopped ↦ absurd (ok-ne-fault (sym (rw stopped at e)))
    | inr on ↦
        subst InOrder (ok-injective (rw on at e))
          (ap (λ (ts : List A). ts ++ task ∷ []) o ∙ append_assoc p.started p.tasks (task ∷ []))
  ]

  Step-InOrder : (p q : ThreadPool A) → InOrder p → Step p q → InOrder q
  unfolding shutdown
  Step-InOrder p q o (handed task e) = enqueue-InOrder task p q o e
  Step-InOrder p q o (moved i w here e) = move-InOrder i w p q o e
  Step-InOrder p q o (ended e) = subst InOrder (sym e) o

  -- Whatever the threads do, the tasks that have been started, in the order of their starts, and
  -- those that wait in the queue are together the tasks that were handed over, in that order: none is
  -- lost before it is started, none is started twice, and none overtakes another.
  pub Reaches-InOrder :
      (threads : ℕ) (p : ThreadPool A) → Reaches (thread_pool threads) p → InOrder p
  unfolding thread_pool
  Reaches-InOrder threads p at_once = refl
  Reaches-InOrder threads p (later {q} run step) =
      Step-InOrder q p (Reaches-InOrder threads q run) step
