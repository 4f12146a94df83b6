-- ===== src/DbService/Runs.antt =====
-- transaction/dbservice/dbservicemain.cc: the service at work, as the sequence of what happens to
-- it: a connection comes up, a message arrives, a thread of the pool runs the oldest task.
use grit.Common.{◌==◌, if◌then◌else◌, Outcome, ◌>>=◌, Text, ℕ, some, List, [], ◌∷◌, ◌++◌, ok}
use grit.Net.{Conn, RootMsg, db_service_msg, dbtm_msg, DbtmMsg}
use grit.Net.HeaderCmd.{k_commit, k_lsn, k_data, k_judge_conflit}
use grit.DbService.{Dbs}
use grit.DbService.Dbtm.{on_dbtl_connection, on_gtm_connection}
use grit.DbService.Handler.{on_message, run_task}

-- With a task comes the message that the memory holds in which `solve` finds its own.
pub data Event : Type 0 where
  dbtl_up : Conn → Event
  gtm_up : Conn → Event
  received : Conn → RootMsg → Event
  worked : DbtmMsg → Event

-- The transactions that a message commits, and those that it gives a number to.
abbrev pub commit_of : RootMsg → List ℕ
commit_of (db_service_msg msg) =
    if msg.cmd == k_data then [] else if msg.cmd == k_commit then msg.txid ∷ [] else []
commit_of _ = []

abbrev pub number_of : RootMsg → List ℕ
number_of (dbtm_msg msg) =
    if msg.cmd == k_judge_conflit then [] else if msg.cmd == k_lsn then msg.txid ∷ [] else []
number_of _ = []

abbrev pub commits : List Event → List ℕ
commits [] = []
commits (received conn msg ∷ es) = commit_of msg ++ commits es
commits (_ ∷ es) = commits es

abbrev pub numbers : List Event → List ℕ
numbers [] = []
numbers (received conn msg ∷ es) = number_of msg ++ numbers es
numbers (_ ∷ es) = numbers es

module _ (hash : Text → ℕ) (dbtm_log_path : Text) where
  unfoldable pub happen : Event → Dbs → Outcome Dbs
  unfolding on_message run_task on_dbtl_connection on_gtm_connection
  happen (dbtl_up conn) s = ok (on_dbtl_connection conn s)
  happen (gtm_up conn) s = ok (on_gtm_connection conn s)
  happen (received conn msg) s = on_message conn msg s
  happen (worked msg) s = run_task hash dbtm_log_path (some msg) s

  unfoldable pub play : List Event → Dbs → Outcome Dbs
  unfolding happen
  play [] s = ok s
  play (e ∷ es) s = happen e s >>= play es
