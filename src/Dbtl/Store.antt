-- ===== src/Dbtl/Store.antt =====
-- transaction/dbtl/dbtl.cc, and the handler of messages in dbtlmain.cc. `items` is what the memory
-- of the received message still holds when its task runs.
use grit.Common.{
  ◌==◌, if◌then◌else◌, to_string, Outcome, ◌>>=◌, deref, minus_one, incr, Text, ℕ, Bool, ◌||◌,
  Option, List, [], ◌∷◌, ◌++◌, ok,
}
use grit.Net.{Conn, RootMsg, dbtl_msg, log_player_msg, DbtlMsg}
use grit.Net.HeaderCmd.{k_log, k_lsn, k_tran_success, k_exec_tran_succ, k_exec_tran_fail}
use grit.Net
use grit.Dbtl.{LogInfo, write_file, write_batch, Dbtl, play_log, ret_result, answer}

unfoldable pub read_log : Net.Data → Outcome LogInfo
read_log d = do
  key ← deref d.key
  attribute ← deref d.attribute
  value ← deref d.value
  ok (record { key = key; attribute = attribute; value = value })

-- `key#attribute:value@`
unfoldable pub record_of : LogInfo → Text
record_of l = l.key ++ (b'#' ∷ (l.attribute ++ (b':' ∷ (l.value ++ (b'@' ∷ [])))))

-- The loop of `writeToDisk`. The file is opened for reading only, so that `write` fails; the result
-- is not looked at.
unfoldable pub write_all : ℕ → List Net.Data → Dbtl → Outcome Dbtl
unfolding read_log record_of
write_all txid [] s = ok s
write_all txid (d ∷ ds) s = do
  log ← read_log d
  write_all txid ds (record s {
    calls = s.calls ++ write_file (to_string txid) (record_of log) ∷ [];
    log_table = λ t. if txid == t then s.log_table t ++ log ∷ [] else s.log_table t;
  })

unfoldable pub write_to_disk : ℕ → Option (List Net.Data) → Conn → Dbtl → Outcome Dbtl
unfolding write_all play_log ret_result
write_to_disk txid items conn s = do
  data_vec ← deref items
  s' ← write_all txid data_vec s
  s'' ← play_log txid s'
  ok (ret_result k_tran_success txid minus_one conn s'')

-- The loop of `writeToDiskByRocksDb`.
unfoldable pub batch_of : List Net.Data → Outcome (List (Text × Text))
unfolding read_log
batch_of [] = ok []
batch_of (d ∷ ds) = do
  log ← read_log d
  rest ← batch_of ds
  ok ((log.key, log.attribute ++ (b':' ∷ (log.value ++ (b'@' ∷ [])))) ∷ rest)

unfoldable pub write_to_disk_by_rocks_db : ℕ → Option (List Net.Data) → Conn → Dbtl → Outcome Dbtl
unfolding batch_of ret_result
write_to_disk_by_rocks_db txid items conn s = do
  data_vec ← deref items
  batch ← batch_of data_vec
  ok (
      ret_result k_tran_success txid minus_one conn
        (record s { calls = s.calls ++ write_batch batch ∷ [] }))

-- Dbtl::solve.
unfoldable pub solve : Conn → DbtlMsg → Dbtl → Dbtl
unfolding ret_result
solve conn msg s =
    if msg.cmd == k_log
    then record s { tasks = s.tasks ++ (msg.txid, conn) ∷ [] }
    else if msg.cmd == k_lsn
    then ret_result k_lsn msg.txid s.apply_lsn conn (record s { apply_lsn = incr s.apply_lsn })
    else s

-- The one thread of the pool takes the oldest task.
unfoldable pub run_task : Bool → Option (List Net.Data) → Dbtl → Outcome Dbtl
unfolding write_to_disk write_to_disk_by_rocks_db
run_task use_rocks_db items s = elim s.tasks [
  | [] ↦ ok s
  | (txid, conn) ∷ tasks ↦
      let s' : Dbtl = record s { tasks = tasks } in
      if use_rocks_db
      then write_to_disk_by_rocks_db txid items conn s'
      else write_to_disk txid items conn s'
]

unfoldable pub on_message : ℕ → Conn → RootMsg → Dbtl → Outcome Dbtl
unfolding solve answer
on_message max_retry conn (dbtl_msg msg) s =
    ok (if msg.cmd == k_log || msg.cmd == k_lsn then solve conn msg s else s)
on_message max_retry conn (log_player_msg msg) s =
    if msg.cmd == k_exec_tran_succ || msg.cmd == k_exec_tran_fail
    then answer max_retry msg s
    else ok s
on_message max_retry conn _ s = ok s
