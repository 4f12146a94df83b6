-- ===== src/Dbtl/Confirmed.antt =====
-- A storage server that has confirmed a log, through a whole run of the log store.
use grit.Common.{
  Stride, Trace, run_all-Trace, ==_refl, All-map, All-Unit, Returns, Safely, get_default, ℕ, ◌<◌,
  refl, sym, subst, ◌≢◌, Bool, List, [], append-nil, carries_on, halts,
}
use grit.Dbtl.{Dbtl, remove, answer}
use grit.Dbtl.Answers.{remove-All}
use grit.Dbtl.Retry.{success_msg}
use grit.Dbtl.Players.{IsPlayable}
use grit.Dbtl.Runs.{
  Input, connect, message, work, clock, take_in, Refused, take_in-Stride, confirmed,
  confirmed-IsPlayable,
}
use grit.Dbtl.Spared.{Spared, poll-Spared}
use grit.Dbtl.SparedStore.{on_db_connection-Spared, run_task-Spared, on_message-Spared}

module _ (txid id : ℕ) where
  abbrev pub KeepsSpared : Dbtl → Dbtl → Type 0
  KeepsSpared s₁ s = IsPlayable s × Spared txid id s₁ s

  take_in-Spared :
      (max_retry : ℕ) (use_rocks_db : Bool) (e : Input) (s₀ s : Dbtl)
      → Spared txid id s₀ s
      → Safely (Spared txid id s₀) (take_in max_retry use_rocks_db e s)
  unfolding take_in
  take_in-Spared max_retry use_rocks_db (connect conn) s₀ s h =
      on_db_connection-Spared txid id conn s₀ s h
  take_in-Spared max_retry use_rocks_db (message conn msg) s₀ s h =
      on_message-Spared txid id max_retry conn msg s₀ s h
  take_in-Spared max_retry use_rocks_db (work items) s₀ s h =
      run_task-Spared txid id use_rocks_db items s₀ s h
  take_in-Spared max_retry use_rocks_db (clock time) s₀ s h = poll-Spared txid id time s₀ s h

-- The state after a confirmation.
confirmed-Spared :
    (txid id : ℕ) (s : Dbtl) → Spared txid id (confirmed txid id s) (confirmed txid id s)
unfolding confirmed
confirmed-Spared txid id s =
    let waiting = get_default [] (s.answer_table txid) in
    record {
      waiting = remove id waiting;
      waits = rw (==_refl txid) refl;
      others =
          All-map _ (λ p. p ≢ id) (remove id waiting) (λ p k. k.1)
            (remove-All (λ _. Unit {0}) id waiting (All-Unit waiting));
      new = [];
      said = sym (append-nil s.outbox);
      elsewhere = tt;
    }

module _ (max_retry : ℕ) (small : max_retry < 55) (use_rocks_db : Bool) (txid id : ℕ) where
  spared-Stride :
      (s₁ : Dbtl) (e : Input) (s : Dbtl)
      → KeepsSpared txid id s₁ s
      → Stride (take_in max_retry use_rocks_db) (KeepsSpared txid id s₁) Refused e s
  spared-Stride s₁ e s (p, h) = elim (take_in-Stride max_retry small use_rocks_db e s p) [
    | carries_on s' run p' ↦ carries_on s' run (
      p',
      subst (Safely (Spared txid id s₁)) run
          (take_in-Spared txid id max_retry use_rocks_db e s₁ s h),
    )
    | halts f run r ↦ halts f run r
  ]

  -- In a configuration that allows fewer than 55 retries, and a state in which all positions that are
  -- waited for are those of connected servers: when the server at the position `id` has confirmed the
  -- log of the transaction `txid`, and any servers, messages, tasks and looks at the clock follow,
  -- then through all of them, or all up to the first that is a fault (a failure that is not counted
  -- for its transaction, or a log of which a part is missing), that server is not waited for any
  -- more, and whatever log of the transaction is sent goes to a server at another position.
  pub answer-Trace :
      (s : Dbtl) (es : List Input)
      → IsPlayable s
      → Returns
          (answer max_retry (success_msg txid id) s)
          λ s₁. Trace (take_in max_retry use_rocks_db) (KeepsSpared txid id s₁) Refused es s₁
  unfolding answer confirmed
  answer-Trace s es p =
      let s₁ = confirmed txid id s in
      (
        s₁,
        refl,
        run_all-Trace (take_in max_retry use_rocks_db) (KeepsSpared txid id s₁) Refused
            (spared-Stride s₁) es s₁ (confirmed-IsPlayable txid id s p, confirmed-Spared txid id s),
      )
