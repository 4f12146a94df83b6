-- ===== src/DbService/RunTests.antt =====
-- A database service at work from its start on.
use grit.Common.{
  All, Distinct, ◌>>=◌, Safely, codes, ◌≡◌, refl, false, List, [], ◌∷◌, ok, fault, dangling,
}
use grit.Net.{dbtm_msg, create_dbtm_msg}
use grit.Net.HeaderCmd.{k_tran_success, k_lsn}
use grit.DbService.{get_read_write_set, judge_local_conflict_task, ret_result}
use grit.DbService.Dbtm.{check, pass, write_to_disk_and_sql, judge_local_conflict}
use grit.DbService.Sound.{IsValid}
use grit.DbService.Tasks.{IsReady}
use grit.DbService.Order.{data_msg, commit_msg, lsn_msg}
use grit.DbService.Handler.{on_commit, on_message, run, on_data, on_lsn, run_task, db_service}
use grit.DbService.Runs.{Event, dbtl_up, received, worked, happen, play}
use grit.DbService.Fit.{pointers}
use grit.DbService.Safety.{play-Safely}
use grit.DbService.Tests.{sum_hash, apple}

-- The first transaction of a service: its data, its number and its commit, and the tasks they wake.
abbrev morning : List Event
morning =
    dbtl_up 20
    ∷ received 1 (data_msg 7 (apple ∷ []) [])
    ∷ worked (create_dbtm_msg k_lsn 7 false 5)
    ∷ received 20 (lsn_msg 7 5)
    ∷ received 1 (commit_msg 7 false)
    ∷ []

play-Safely_example :
    Safely
      (λ s.
        IsValid s
        × All (λ p. IsReady s (judge_local_conflict_task p)) (pointers s.tasks)
        × Distinct (pointers s.tasks))
      (play sum_hash (codes "/log/") morning db_service)
play-Safely_example = play-Safely sum_hash (codes "/log/") morning (tt, tt) (tt, tt)

-- It waits to be judged then.
morning_tasks :
    (play sum_hash (codes "/log/") morning db_service >>= λ s. ok s.tasks)
    ≡ ok (judge_local_conflict_task 0 ∷ [])
unfolding play happen run_task run on_message on_data on_commit on_lsn get_read_write_set db_service
morning_tasks = refl

-- A transaction that is committed twice is judged twice, the second time after its success has
-- deleted it.
abbrev committed_twice : List Event
committed_twice =
    dbtl_up 20
    ∷ received 1 (data_msg 7 [] [])
    ∷ worked (create_dbtm_msg k_lsn 7 false 5)
    ∷ received 20 (lsn_msg 7 5)
    ∷ received 1 (commit_msg 7 false)
    ∷ received 1 (commit_msg 7 false)
    ∷ worked (create_dbtm_msg k_lsn 7 false 5)
    ∷ received 20 (dbtm_msg (create_dbtm_msg k_tran_success 7 false 0))
    ∷ worked (create_dbtm_msg k_lsn 7 false 5)
    ∷ []

play-committed_twice : play sum_hash (codes "/log/") committed_twice db_service ≡ fault dangling
unfolding play happen run_task run on_message on_data on_commit on_lsn get_read_write_set db_service
    judge_local_conflict ret_result check pass write_to_disk_and_sql
play-committed_twice = refl
