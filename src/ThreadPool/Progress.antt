-- ===== src/ThreadPool/Progress.antt =====
-- A pool at work, to which nothing more is handed over: how its moves end.
use grit.Common.{
  if◌then◌else◌, length, get_elem?, set, length-set, All, All-get_elem?, All-set, some-injective,
  none-ne-some, ℕ, ◌+◌, ◌*◌, ◌≤◌, ◌<◌, ◌≡◌, refl, sym, ap, subst, ◌∙◌, Bool, false, none, some,
  List, [], ◌∷◌, ◌++◌, append_assoc, append-nil, arith,
}
use grit.ThreadPool.{Worker, testing, waiting, working, gone, ThreadPool, wake, move}
use grit.ThreadPool.Moves.{Moves, IsStuck, Moves-IsStuck, Moves-bounded}
use grit.ThreadPool.Shutdown.{sum_of, sum_of-set}

module _ {A : Type 0} where
  abbrev pub IsOn : Worker A → Type 0
  IsOn gone = ⊥
  IsOn _ = Unit

  -- How many moves a worker of a pool at work can make without taking a task.
  abbrev pub work_left : Worker A → ℕ
  work_left testing = 1
  work_left (working task) = 2
  work_left _ = 0

  abbrev pub pool_left : ThreadPool A → ℕ
  pool_left p = 3 * length p.tasks + sum_of work_left p.workers

  sum_of-work_left : (ws : List (Worker A)) → sum_of work_left ws ≤ 2 * length ws
  unfolding sum_of
  sum_of-work_left [] = omega arith
  sum_of-work_left (testing ∷ ws) = omega (arith, sum_of-work_left ws)
  sum_of-work_left (waiting ∷ ws) = omega (arith, sum_of-work_left ws)
  sum_of-work_left (working t ∷ ws) = omega (arith, sum_of-work_left ws)
  sum_of-work_left (gone ∷ ws) = omega (arith, sum_of-work_left ws)

  first_of : (ws : List (Worker A)) → 0 < length ws → (w : Worker A) × (get_elem? ws 0 ≡ some w)
  first_of [] h = absurd (omega arith)
  first_of (w ∷ ws) h = (w, refl)

  record AtWork (all : List A) (p : ThreadPool A) : Type 0 where
    runs : p.stop ≡ false
    on : All IsOn p.workers
    some_worker : 0 < length p.workers
    order : p.started ++ p.tasks ≡ all

  set_worker :
      (all : List A) (p : ThreadPool A) (i : ℕ) (w v : Worker A) (started tasks : List A)
      → AtWork all p
      → get_elem? p.workers i ≡ some w
      → IsOn v
      → started ++ tasks ≡ all
      → 3 * length tasks + work_left v < 3 * length p.tasks + work_left w
      → let q : ThreadPool A = record p {
        workers = set p.workers i v;
        tasks = tasks;
        started = started;
      } in
        AtWork all q × (pool_left q < pool_left p)
  set_worker all p i w v started tasks a here on order less = (
    record {
      runs = a.runs;
      on = All-set IsOn p.workers i v a.on on;
      some_worker = rw (length-set p.workers i v) a.some_worker;
      order = order;
    },
    omega (arith, sum_of-set work_left p.workers i w v here),
  )

  wake-AtWork :
      (all : List A) (p q : ThreadPool A) (i : ℕ) (ts : List A)
      → AtWork all p
      → p.tasks ≡ ts
      → get_elem? p.workers i ≡ some waiting
      → wake i ts p ≡ some q
      → AtWork all q × (pool_left q < pool_left p)
  unfolding wake
  wake-AtWork all p q i [] a same here e = absurd (none-ne-some (rw a.runs at e))
  wake-AtWork all p q i (t ∷ ts) a same here e =
      subst (λ (r : ThreadPool A). AtWork all r × (pool_left r < pool_left p)) (some-injective e)
        (set_worker all p i waiting (working t) (p.started ++ t ∷ []) ts a here tt
          (append_assoc p.started (t ∷ []) ts ∙ ap (λ us. p.started ++ us) (sym same) ∙ a.order)
          (omega (arith, ap length same)))

  move-AtWork :
      (all : List A) (p q : ThreadPool A) (i : ℕ) (w : Worker A)
      → AtWork all p
      → get_elem? p.workers i ≡ some w
      → move i w p ≡ some q
      → AtWork all q × (pool_left q < pool_left p)
  unfolding move
  move-AtWork all p q i testing a here e =
      subst (λ (r : ThreadPool A). AtWork all r × (pool_left r < pool_left p))
        (some-injective (
          sym (
            ap
              (λ (b : Bool).
                some (record p { workers = set p.workers i (if b then gone else waiting) }))
              a.runs)
          ∙ e))
        (set_worker all p i testing waiting p.started p.tasks a here tt a.order (omega arith))
  move-AtWork all p q i waiting a here e = wake-AtWork all p q i p.tasks a refl here e
  move-AtWork all p q i (working task) a here e =
      subst (λ (r : ThreadPool A). AtWork all r × (pool_left r < pool_left p)) (some-injective e)
        (set_worker all p i (working task) testing p.started p.tasks a here tt a.order
          (omega arith))
  move-AtWork all p q i gone a here e = absurd (none-ne-some e)

  -- Where no worker can move, each waits, and nothing is left to be done.
  first_waits :
      (p : ThreadPool A) (i : ℕ) (w : Worker A)
      → All IsOn p.workers
      → get_elem? p.workers i ≡ some w
      → move i w p ≡ none
      → w ≡ waiting
  unfolding move
  first_waits p i testing on here stuck = absurd (none-ne-some (sym stuck))
  first_waits p i waiting on here stuck = refl
  first_waits p i (working task) on here stuck = absurd (none-ne-some (sym stuck))
  first_waits p i gone on here stuck = absurd (All-get_elem? IsOn p.workers i on here)

  no_task : (p : ThreadPool A) (i : ℕ) (ts : List A) → wake i ts p ≡ none → ts ≡ []
  unfolding wake
  no_task p i [] stuck = refl
  no_task p i (t ∷ ts) stuck = absurd (none-ne-some (sym stuck))

  pub record Done (p q : ThreadPool A) : Type 0 where
    pub idle : q.tasks ≡ []
    pub all_started : q.started ≡ p.started ++ p.tasks
    pub all_wait : (i : ℕ) (w : Worker A) → get_elem? q.workers i ≡ some w → w ≡ waiting

  stuck-Done : (p q : ThreadPool A) → AtWork (p.started ++ p.tasks) q → IsStuck q → Done p q
  unfolding move
  stuck-Done p q a stuck =
      let (w, here) = first_of q.workers a.some_worker in
      let waits = first_waits q 0 w a.on here (stuck 0 w here) in
      let none_left : q.tasks ≡ [] =
        no_task q 0 q.tasks (subst (λ v. move 0 v q ≡ none) waits (stuck 0 w here)) in
      record {
        idle = none_left;
        all_started =
            sym (append-nil q.started) ∙ ap (λ ts. q.started ++ ts) (sym none_left) ∙ a.order;
        all_wait = λ i v e. first_waits q i v a.on e (stuck i v e);
      }

  -- A pool that is not being destroyed, with some worker and none that has ended, and nothing more
  -- handed over: whichever workers move, no sequence of moves is longer than three for each task in
  -- the queue and two for each worker; where it cannot be continued, every task has been started, in
  -- their order, and all workers wait; and some sequence gets there.
  pub Moves-Done :
      (p : ThreadPool A)
      → p.stop ≡ false
      → All IsOn p.workers
      → 0 < length p.workers
      → ((k : ℕ) (q : ThreadPool A) → Moves k p q → k ≤ 3 * length p.tasks + 2 * length p.workers)
        × ((k : ℕ) (q : ThreadPool A) → Moves k p q → IsStuck q → Done p q)
        × ((k : ℕ) × (q : ThreadPool A) × Moves k p q × Done p q)
  Moves-Done p runs on some_worker =
      let all = p.started ++ p.tasks in
      let less = move-AtWork all in
      let a : AtWork all p = record {
        runs = runs;
        on = on;
        some_worker = some_worker;
        order = refl;
      } in
      let bounded = λ (k : ℕ) (q : ThreadPool A) (run : Moves k p q).
        Moves-bounded (AtWork all) pool_left less k p q a run in
      let (k, q, run, stuck) =
        Moves-IsStuck (AtWork all) pool_left less (pool_left p) p a (omega arith) in
      (
        λ k q run. omega (arith, (bounded k q run).1, sum_of-work_left p.workers),
        λ k q run stuck. stuck-Done p q (bounded k q run).0 stuck,
        (k, q, run, stuck-Done p q (bounded k q run).0 stuck),
      )
