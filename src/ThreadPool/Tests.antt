-- ===== src/ThreadPool/Tests.antt =====
-- A pool of two threads at work, and its theorems at concrete inputs. Tasks are numbers here.
use grit.Common.{
  length, ℕ, ◌+◌, ◌*◌, ◌≤◌, ◌≡◌, refl, true, false, some, [], ◌∷◌, arith, fault, stopped_pool,
}
use grit.ThreadPool.{
  testing, waiting, working, gone, ThreadPool, thread_pool, enqueue, wake, move, handed, Reaches,
  at_once, later,
}
use grit.ThreadPool.Order.{InOrder, Reaches-InOrder}
use grit.ThreadPool.Moves.{Moves, IsStuck}
use grit.ThreadPool.Progress.{Done, Moves-Done}
use grit.ThreadPool.Ending.{Joined, Moves-Joined}

-- Two tasks have been handed over, and the destructor has begun.
abbrev ending : ThreadPool ℕ
ending = record {
  workers = waiting ∷ testing ∷ [];
  tasks = 5 ∷ 6 ∷ [];
  stop = true;
  enqueued = 5 ∷ 6 ∷ [];
  started = [];
}

-- Nothing can be handed over any more.
refused : enqueue 7 ending ≡ fault stopped_pool
unfolding enqueue
refused = refl

-- The worker that was waiting still takes a task, and the other leaves: the task 6 is dropped.
takes :
    move 0 waiting ending
    ≡ some (record ending { workers = working 5 ∷ testing ∷ []; tasks = 6 ∷ []; started = 5 ∷ [] })
unfolding move wake
takes = refl

leaves : move 1 testing ending ≡ some (record ending { workers = waiting ∷ gone ∷ [] })
unfolding move
leaves = refl

one_task : ThreadPool ℕ
unfolding thread_pool
one_task = record (thread_pool 2) { tasks = 5 ∷ []; enqueued = 5 ∷ [] }

one_run : Reaches (thread_pool 2) one_task
unfolding one_task thread_pool enqueue
one_run = later at_once (handed 5 refl)

Reaches-InOrder_example : InOrder one_task
Reaches-InOrder_example = Reaches-InOrder 2 one_task one_run

Moves-Joined_example :
    ((k : ℕ) (q : ThreadPool ℕ) → Moves k ending q → k ≤ 3 * length ending.workers)
    × ((k : ℕ) (q : ThreadPool ℕ) → Moves k ending q → IsStuck q → Joined ending q)
    × ((k : ℕ) × (q : ThreadPool ℕ) × Moves k ending q × Joined ending q)
Moves-Joined_example = Moves-Joined ending refl

-- The same pool without the call of the destructor.
abbrev going_on : ThreadPool ℕ
going_on = record ending { stop = false }

Moves-Done_example :
    ((k : ℕ) (q : ThreadPool ℕ)
      → Moves k going_on q
      → k ≤ 3 * length going_on.tasks + 2 * length going_on.workers)
    × ((k : ℕ) (q : ThreadPool ℕ) → Moves k going_on q → IsStuck q → Done going_on q)
    × ((k : ℕ) × (q : ThreadPool ℕ) × Moves k going_on q × Done going_on q)
Moves-Done_example = Moves-Done going_on refl (tt, (tt, tt)) (omega arith)
