-- ===== src/DbService/Safety.antt =====
-- The service over whole runs: whatever comes in, and however the pool gets on, as long as no
-- transaction is committed twice or numbered twice.
use grit.Common.{
  All, All-map, Distinct, Distinct-append_right, All-Unit, Safely, Safely->>=, Safely-map,
  Safely-both, none-ne-some, Text, ℕ, ◌≡◌, refl, ◌⊎◌, inl, inr, some, List, [], ◌∷◌,
}
use grit.Net.{DbtmMsg}
use grit.DbService.{Dbs, Task, get_lsn_task, judge_local_conflict_task, solve_task}
use grit.DbService.Dbtm.{on_dbtl_connection, on_gtm_connection, init_my_sql, sql_exec, call}
use grit.DbService.Sound.{IsValid, on_message-Safely}
use grit.DbService.Tasks.{IsReady, run-Safely}
use grit.DbService.Handler.{on_message, run, run_task, db_service}
use grit.DbService.Fit.{pointers, Fit}
use grit.DbService.Frames.{Spared, run-Framed}
use grit.DbService.Runs.{
  Event, dbtl_up, gtm_up, received, worked, commit_of, number_of, commits, numbers, happen, play,
}
use grit.DbService.Incoming.{IsFit, Fit-Frame, on_message-Fit}

List-cases : (ts : List Task) → (ts ≡ []) ⊎ ((t : Task) × (us : List Task) × (ts ≡ t ∷ us))
List-cases [] = inl refl
List-cases (t ∷ us) = inr (t, us, refl)

module _ (hash : Text → ℕ) (dbtm_log_path : Text) where
  run-Fit :
      (cs ns : List ℕ) (task : Task) (msg : DbtmMsg) (s : Dbs)
      → IsValid s
      → Fit cs ns s.txid_trans s.heap (task ∷ s.tasks)
      → Safely (λ s'. IsValid s' × IsFit cs ns s') (run hash dbtm_log_path task (some msg) s)
  run-Fit cs ns task msg s v f =
      let r = run hash dbtm_log_path task (some msg) s in
      let (ready, apart, rest) = split task f in
      Safely-both IsValid (IsFit cs ns) r (run-Safely hash dbtm_log_path task msg s v ready) (
        Safely-map r (λ s' fr. Fit-Frame cs ns (Spared task) fr apart rest)
          (run-Framed hash dbtm_log_path task msg s v ready))
    where
      split :
          (task' : Task)
          → Fit cs ns s.txid_trans s.heap (task' ∷ s.tasks)
          → IsReady s task' × All (Spared task') (pointers s.tasks) × IsFit cs ns s
      split (judge_local_conflict_task p) g =
          let (h, hs) = g.ready in
          let (apart, once) = g.once in
          (
            (h.tran, h.here, h.held),
            apart,
            record {
              past_commit = g.past_commit;
              past_number = g.past_number;
              ready = hs;
              once = once;
            },
          )
      split (get_lsn_task t) g = (
        tt,
        All-Unit (pointers s.tasks),
        record {
          past_commit = g.past_commit;
          past_number = g.past_number;
          ready = g.ready;
          once = g.once;
        },
      )
      split solve_task g = (
        tt,
        All-Unit (pointers s.tasks),
        record {
          past_commit = g.past_commit;
          past_number = g.past_number;
          ready = g.ready;
          once = g.once;
        },
      )

  run_task-Fit :
      (cs ns : List ℕ) (msg : DbtmMsg) (s : Dbs)
      → IsValid s
      → IsFit cs ns s
      → Safely (λ s'. IsValid s' × IsFit cs ns s') (run_task hash dbtm_log_path (some msg) s)
  unfolding run_task
  run_task-Fit cs ns msg s v f = elim (List-cases s.tasks) [
    | inl e ↦ rw (run_task, e) (v, f)
    | inr (task, tasks, e) ↦
        rw (run_task, e) (run-Fit cs ns task msg (record s { tasks = tasks }) v (rw e at f))
  ]

  -- What holds between two events, when the events `es` are still to come.
  abbrev pub Sound : List Event → Dbs → Type 0
  Sound es s = IsValid s × IsFit (commits es) (numbers es) s

  happen-Sound :
      (e : Event) (es : List Event) (s : Dbs)
      → Sound (e ∷ es) s
      → Distinct (commits (e ∷ es))
      → Distinct (numbers (e ∷ es))
      → Safely (Sound es) (happen hash dbtm_log_path e s)
  unfolding happen on_dbtl_connection on_gtm_connection
  happen-Sound (dbtl_up conn) es s v dc dn = v
  happen-Sound (gtm_up conn) es s v dc dn = v
  happen-Sound (worked msg) es s (v, f) dc dn = run_task-Fit (commits es) (numbers es) msg s v f
  happen-Sound (received conn msg) es s (v, f) dc dn =
      Safely-both IsValid (IsFit (commits es) (numbers es)) (on_message conn msg s)
        (on_message-Safely conn msg s v)
        (on_message-Fit (commits es) (numbers es) conn msg s v f dc dn)

  fewer_commits :
      (e : Event) (es : List Event) → Distinct (commits (e ∷ es)) → Distinct (commits es)
  fewer_commits (dbtl_up conn) es h = h
  fewer_commits (gtm_up conn) es h = h
  fewer_commits (worked msg) es h = h
  fewer_commits (received conn msg) es h = Distinct-append_right (commit_of msg) (commits es) h

  fewer_numbers :
      (e : Event) (es : List Event) → Distinct (numbers (e ∷ es)) → Distinct (numbers es)
  fewer_numbers (dbtl_up conn) es h = h
  fewer_numbers (gtm_up conn) es h = h
  fewer_numbers (worked msg) es h = h
  fewer_numbers (received conn msg) es h = Distinct-append_right (number_of msg) (numbers es) h

  play-Sound :
      (es : List Event) (s : Dbs)
      → Sound es s
      → Distinct (commits es)
      → Distinct (numbers es)
      → Safely (Sound []) (play hash dbtm_log_path es s)
  unfolding play
  play-Sound [] s v dc dn = v
  play-Sound (e ∷ es) s v dc dn =
      Safely->>= (Sound es) (Sound []) (happen hash dbtm_log_path e s) _
        (happen-Sound e es s v dc dn)
        λ s' _ v'. play-Sound es s' v' (fewer_commits e es dc) (fewer_numbers e es dn)

  db_service-Sound : (es : List Event) → Sound es db_service
  unfolding db_service init_my_sql sql_exec call
  db_service-Sound es = (
    record {
      unchecked = λ t p h. absurd (none-ne-some h);
      checked = λ t p h. absurd (none-ne-some h);
      apart = λ t p h. absurd (none-ne-some h);
      fresh = λ p tran h. absurd (none-ne-some h);
    },
    record {
      past_commit = λ p tran h. absurd (none-ne-some h);
      past_number = λ p tran h. absurd (none-ne-some h);
      ready = tt;
      once = tt;
    },
  )

  -- A service that starts, with any connections and messages coming in and its pool running any of
  -- the tasks in their order, in any interleaving, where `solve` still finds a message in its memory
  -- when it runs: as long as no transaction id is committed twice and none is given a number twice,
  -- no transaction is used after it has been deleted. The entries of both tables then lead to living
  -- transactions of their ids, none of them in both tables; no transaction waits twice to be judged,
  -- and each that waits is still an unchecked one.
  pub play-Safely :
      (es : List Event)
      → Distinct (commits es)
      → Distinct (numbers es)
      → Safely
          (λ s.
            IsValid s
            × All (λ p. IsReady s (judge_local_conflict_task p)) (pointers s.tasks)
            × Distinct (pointers s.tasks))
          (play hash dbtm_log_path es db_service)
  play-Safely es dc dn =
      Safely-map (play hash dbtm_log_path es db_service)
        (λ s (v, f). (
          v,
          All-map _ (λ p. IsReady s (judge_local_conflict_task p)) (pointers s.tasks)
              (λ p h. (h.tran, h.here, h.held)) f.ready,
          f.once,
        ))
        (play-Sound es db_service (db_service-Sound es) dc dn)
