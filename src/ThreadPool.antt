-- ===== src/ThreadPool.antt =====
-- base/threadPool.h: ThreadPool as a machine whose steps are the moves of its threads. A move is
-- what a thread does between two points where others can come in: the test of the loop, the wait
-- for a task with the lock, the task itself. A task is a value of `A`.
mod Tests
pub mod Order
pub mod Shutdown
pub mod Moves
pub mod Progress
pub mod Ending
use grit.Common.{
  if◌then◌else◌, get_elem?, set, replicate, Outcome, ℕ, ◌≡◌, Bool, true, false, Option, none, some,
  List, [], ◌∷◌, ◌++◌, ok, fault, stopped_pool,
}

-- Where a worker stands: before the test of `while`, at the condition variable, in a task, or behind
-- the end of its function.
pub data Worker (A : Type 0) : Type 0 where
  testing : Worker A
  waiting : Worker A
  working : A → Worker A
  gone : Worker A

-- `enqueued` and `started` are kept for the statements: the tasks in the order in which they were
-- handed over, and in which they were started.
pub record ThreadPool (A : Type 0) : Type 0 where
  pub workers : List (Worker A)
  pub tasks : List A
  pub stop : Bool
  pub enqueued : List A
  pub started : List A

module _ {A : Type 0} where
  -- The constructor.
  unfoldable pub thread_pool : ℕ → ThreadPool A
  thread_pool threads = record {
    workers = replicate threads testing;
    tasks = [];
    stop = false;
    enqueued = [];
    started = [];
  }

  unfoldable pub enqueue : A → ThreadPool A → Outcome (ThreadPool A)
  enqueue task p =
      let p' : ThreadPool A = record p {
        tasks = p.tasks ++ task ∷ [];
        enqueued = p.enqueued ++ task ∷ [];
      } in
      if p.stop then fault stopped_pool else ok p'

  -- The destructor, up to the calls of `join`.
  unfoldable pub shutdown : ThreadPool A → ThreadPool A
  shutdown p = record p { stop = true }

  -- A worker that holds the lock: it waits on, leaves, or takes the oldest task.
  unfoldable pub wake : ℕ → List A → ThreadPool A → Option (ThreadPool A)
  wake i [] p = if p.stop then some (record p { workers = set p.workers i gone }) else none
  wake i (task ∷ tasks) p = some (record p {
    workers = set p.workers i (working task);
    tasks = tasks;
    started = p.started ++ task ∷ [];
  })

  -- The next move of a worker, if it can make one.
  unfoldable pub move : ℕ → Worker A → ThreadPool A → Option (ThreadPool A)
  unfolding wake
  move i testing p =
      some (record p { workers = set p.workers i (if p.stop then gone else waiting) })
  move i waiting p = wake i p.tasks p
  move i (working task) p = some (record p { workers = set p.workers i testing })
  move i gone p = none

  -- All that can happen to a pool.
  pub data Step (p : ThreadPool A) (q : ThreadPool A) : Type 0 where
    handed : (task : A) → enqueue task p ≡ ok q → Step p q
    moved : (i : ℕ) (w : Worker A) → get_elem? p.workers i ≡ some w → move i w p ≡ some q → Step p q
    ended : q ≡ shutdown p → Step p q

  pub data Reaches (p : ThreadPool A) : ThreadPool A → Type 0 where
    at_once : Reaches p p
    later : {q r : ThreadPool A} → Reaches p q → Step q r → Reaches p r
