-- ===== src/TimeWheel/Thread.antt =====
-- base/timeWheel.h: `init`, which gives the wheel a pool of one thread for the loop `start`. The
-- loop never ends; what it does to the wheel is the sequence of polls of Clock.antt.
use grit.Common.{
  Outcome, ◌>>=◌, Returns, ℕ, ◌≤◌, ◌≡◌, refl, false, Option, some, [], ◌∷◌, arith, ok,
}
use grit.ThreadPool.{testing, ThreadPool, thread_pool, enqueue}
use grit.ThreadPool.Moves.{Moves, IsStuck}
use grit.ThreadPool.Progress.{Moves-Done}
use grit.TimeWheel.{TimeWheel}

-- The one task that is ever handed to the pool.
pub data Job : Type 0 where
  start : Job

-- `epollfd` and `pool` are not set before `init`.
pub record Driven (A : Type 0) : Type 0 where
  pub wheel : TimeWheel A
  pub epollfd : Option ℕ
  pub pool : Option (ThreadPool Job)

module _ {A : Type 0} where
  -- `fd` is what `epoll_create1` gives, and is kept whatever it is.
  unfoldable pub init : ℕ → Driven A → Outcome (Driven A)
  init fd d = do
    pool ← enqueue start (thread_pool 1)
    ok (record d { epollfd = some fd; pool = some pool })

  -- The thread gets to the loop, in at most five moves, and starts it once.
  pub init-Done :
      (fd : ℕ) (d : Driven A)
      → Returns (init fd d) λ d'.
        (p : ThreadPool Job) × (d'.pool ≡ some p)
        × ((k : ℕ) (q : ThreadPool Job) → Moves k p q → k ≤ 5)
        × ((k : ℕ) (q : ThreadPool Job) → Moves k p q → IsStuck q → q.started ≡ start ∷ [])
  unfolding init enqueue thread_pool
  init-Done fd d =
      let p : ThreadPool Job = record {
        workers = testing ∷ [];
        tasks = start ∷ [];
        stop = false;
        enqueued = start ∷ [];
        started = [];
      } in
      let (few, done, _) = Moves-Done p refl (tt, tt) (omega arith) in
      (
        record d { epollfd = some fd; pool = some p },
        refl,
        (p, refl, few, λ k q run stuck. (done k q run stuck).all_started),
      )
