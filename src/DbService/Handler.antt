-- ===== src/DbService/Handler.antt =====
-- transaction/dbservice/dbservicemain.cc: the handler of messages, and the tasks of the pool that
-- the constructor in dbservice.cc opens. A task runs to its end between two messages; `buffer` is
-- what the memory of the received message still holds when `solve` runs.
use grit.Common.{
  ◌==◌, if◌then◌else◌, Outcome, ◌>>=◌, deref, no_entries, minus_one, slt, Text, ℕ, true, ◌||◌,
  Option, none, some, [], ◌∷◌, ok, fault, dangling,
}
use grit.Net.{Conn, RootMsg, db_service_msg, dbtm_msg, DbServiceMsg, DbtmMsg}
use grit.Net.HeaderCmd.{k_data, k_commit, k_judge_conflit, k_lsn, k_tran_success, k_tran_fail}
use grit.Hash.{mhash}
use grit.DbService.{
  Transaction, Dbs, Task, get_lsn_task, judge_local_conflict_task, solve_task, load, store, enqueue,
  get_read_write_set, ret_result,
}
use grit.DbService.Dbtm.{get_lsn, judge_local_conflict, solve, init_my_sql}

-- The service after its constructor, before the connections are up.
unfoldable pub db_service : Dbs
unfolding init_my_sql
db_service = init_my_sql (record {
  table = no_entries;
  txid_trans = no_entries;
  dbtm_table = no_entries;
  heap = no_entries;
  next = 0;
  wcheck = mhash;
  dbtl_conn = none;
  gtm_conn = none;
  outbox = [];
  calls = [];
  tasks = [];
})

unfoldable pub on_data : Conn → DbServiceMsg → Dbs → Outcome Dbs
unfolding get_read_write_set load store enqueue
on_data conn msg s = do
  s' ← get_read_write_set conn msg s
  p ← deref (s'.txid_trans msg.txid)
  tran ← load p s'
  let asked = enqueue (get_lsn_task msg.txid) (store p (record tran { lsn = 0 }) s')
  ok (if tran.lsn == minus_one then asked else s')

unfoldable pub on_commit : DbServiceMsg → Dbs → Outcome Dbs
unfolding load store enqueue
on_commit msg s = do
  p ← deref (s.txid_trans msg.txid)
  tran ← load p s
  let tran' : Transaction = record tran { need_global_conflct = msg.need_global_conflict }
  let judged = enqueue (judge_local_conflict_task p) (store p tran' s)
  ok (if slt 0 tran'.lsn then judged else store p (record tran' { already_commit = true }) s)

unfoldable pub on_lsn : DbtmMsg → Dbs → Outcome Dbs
unfolding load store enqueue
on_lsn msg s = do
  p ← deref (s.txid_trans msg.txid)
  tran ← load p s
  let s' = store p (record tran { lsn = msg.lsn }) s
  ok (if tran.already_commit then enqueue (judge_local_conflict_task p) s' else s')

unfoldable pub on_message : Conn → RootMsg → Dbs → Outcome Dbs
unfolding on_data on_commit on_lsn enqueue ret_result
on_message conn (db_service_msg msg) s =
    if msg.cmd == k_data
    then on_data conn msg s
    else if msg.cmd == k_commit
    then on_commit msg s
    else ok s
on_message conn (dbtm_msg msg) s =
    if msg.cmd == k_judge_conflit
    then ok (enqueue solve_task s)
    else if msg.cmd == k_lsn
    then on_lsn msg s
    else if msg.cmd == k_tran_success || msg.cmd == k_tran_fail
    then ret_result msg.cmd msg.txid s
    else ok s
on_message conn _ s = ok s

module _ (hash : Text → ℕ) (dbtm_log_path : Text) where
  unfoldable pub run : Task → Option DbtmMsg → Dbs → Outcome Dbs
  unfolding get_lsn judge_local_conflict solve
  run (get_lsn_task txid) buffer s = get_lsn txid s
  run (judge_local_conflict_task p) buffer s = judge_local_conflict hash dbtm_log_path p s
  run solve_task none s = fault dangling
  run solve_task (some msg) s = solve hash dbtm_log_path msg s

  -- A thread takes the oldest task.
  unfoldable pub run_task : Option DbtmMsg → Dbs → Outcome Dbs
  unfolding run
  run_task buffer s = elim s.tasks [
    | [] ↦ ok s
    | task ∷ tasks ↦ run task buffer (record s { tasks = tasks })
  ]
