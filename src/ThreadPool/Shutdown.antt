-- ===== src/ThreadPool/Shutdown.antt =====
-- The destructor: its calls of `join` return, and few of the tasks that are left are run.
use grit.Common.{
  if◌then◌else◌, length, get_elem?, set, length-append, some-injective, none-ne-some, ℕ, zero, suc,
  ◌+◌, ◌≤◌, ◌<◌, ◌≡◌, refl, ap, Bool, true, none, some, List, [], ◌∷◌, ◌++◌, arith,
}
use grit.ThreadPool.{Worker, testing, waiting, working, gone, ThreadPool, wake, move}

module _ {A : Type 0} where
  -- How many moves a worker can still make, and how many tasks it can still start.
  abbrev pub moves_left : Worker A → ℕ
  moves_left testing = 1
  moves_left waiting = 3
  moves_left (working task) = 2
  moves_left gone = 0

  abbrev pub starts_left : Worker A → ℕ
  starts_left waiting = 1
  starts_left _ = 0

  unfoldable pub sum_of : (Worker A → ℕ) → List (Worker A) → ℕ
  sum_of f [] = 0
  sum_of f (w ∷ ws) = f w + sum_of f ws

  pub sum_of-set :
      (f : Worker A → ℕ) (ws : List (Worker A)) (i : ℕ) (w v : Worker A)
      → get_elem? ws i ≡ some w
      → sum_of f (set ws i v) + f w ≡ sum_of f ws + f v
  unfolding sum_of
  sum_of-set f [] i w v e = absurd (none-ne-some e)
  sum_of-set f (x ∷ ws) zero w v e =
      let same : f x ≡ f w = ap f (some-injective e) in omega (arith, same)
  sum_of-set f (x ∷ ws) (suc i) w v e = omega (arith, sum_of-set f ws i w v e)

  -- One move in a pool that is being destroyed.
  pub record Drains (p q : ThreadPool A) : Type 0 where
    pub still : q.stop ≡ true
    pub fewer : sum_of moves_left q.workers < sum_of moves_left p.workers
    pub starts :
        length q.started + sum_of starts_left q.workers
        ≤ length p.started + sum_of starts_left p.workers

  made :
      (p : ThreadPool A) (i : ℕ) (w v : Worker A) (started : List A) (tasks : List A)
      → p.stop ≡ true
      → get_elem? p.workers i ≡ some w
      → moves_left v < moves_left w
      → length started + starts_left v ≤ length p.started + starts_left w
      → Drains p (record p { workers = set p.workers i v; tasks = tasks; started = started })
  made p i w v started tasks stopped here less few = record {
    still = stopped;
    fewer = omega (arith, sum_of-set moves_left p.workers i w v here);
    starts = omega (arith, sum_of-set starts_left p.workers i w v here);
  }

  wake-Drains :
      (p : ThreadPool A) (i : ℕ) (ts : List A)
      → p.stop ≡ true
      → get_elem? p.workers i ≡ some waiting
      → (q : ThreadPool A) × (wake i ts p ≡ some q) × Drains p q
  unfolding wake
  wake-Drains p i [] stopped here = (
    record p { workers = set p.workers i gone },
    ap (λ (b : Bool). if b then some (record p { workers = set p.workers i gone }) else none)
        stopped,
    made p i waiting gone p.started p.tasks stopped here (omega arith) (omega arith),
  )
  wake-Drains p i (t ∷ ts) stopped here = (
    record p { workers = set p.workers i (working t); tasks = ts; started = p.started ++ t ∷ [] },
    refl,
    made p i waiting (working t) (p.started ++ t ∷ []) ts stopped here (omega arith)
        (omega (arith, length-append p.started (t ∷ []))),
  )

  -- In a pool that is being destroyed each worker that has not ended can make a move; each move
  -- leaves fewer moves to be made; and the tasks that have been started and the workers that wait for
  -- one do not become more, taken together.
  pub move-Drains :
      (p : ThreadPool A) (i : ℕ) (w : Worker A)
      → p.stop ≡ true
      → get_elem? p.workers i ≡ some w
      → 0 < moves_left w
      → (q : ThreadPool A) × (move i w p ≡ some q) × Drains p q
  unfolding move
  move-Drains p i testing stopped here alive = (
    record p { workers = set p.workers i gone },
    ap (λ (b : Bool). some (record p { workers = set p.workers i (if b then gone else waiting) }))
        stopped,
    made p i testing gone p.started p.tasks stopped here (omega arith) (omega arith),
  )
  move-Drains p i waiting stopped here alive = wake-Drains p i p.tasks stopped here
  move-Drains p i (working t) stopped here alive = (
    record p { workers = set p.workers i testing },
    refl,
    made p i (working t) testing p.started p.tasks stopped here (omega arith) (omega arith),
  )
  move-Drains p i gone stopped here alive = absurd (omega arith)
