-- ===== src/DbService/Dbtm.antt =====
-- transaction/dbservice/dbtm.h and dbtm.cc: the local check for conflicts against the keys that
-- have been written, the verdict of the global transaction manager, the log on disk and its table
-- in the local database. `hash` is std::hash<std::string>, and `dbtm_log_path` the directory of the
-- log.
use grit.Common.{
  ◌==◌, if◌then◌else◌, to_string, Outcome, ◌>>=◌, deref, insert, erase, Text, codes, ℕ, ◌%◌, Bool,
  true, false, not, none, some, List, [], ◌∷◌, ◌++◌, ok,
}
use grit.Net.{Conn, DbtmMsg, dbtl_msg, gtm_msg, create_data, create_dbtl_msg, create_gtm_msg}
use grit.Net.HeaderCmd.{k_data, k_log, k_lsn, k_judge_conflit, k_tran_fail}
use grit.Net
use grit.Hash.{Mhash, del_less_than, exist}
use grit.Hash
use grit.DbService.{
  Data, Transaction, Call, exe_sql, write_file, remove_file, Dbs, load, send, ret_result,
}

unfoldable pub on_dbtl_connection : Conn → Dbs → Dbs
on_dbtl_connection conn s = record s { dbtl_conn = some conn }

unfoldable pub on_gtm_connection : Conn → Dbs → Dbs
on_gtm_connection conn s = record s { gtm_conn = some conn }

unfoldable pub call : Call → Dbs → Dbs
call c s = record s { calls = s.calls ++ c ∷ [] }

unfoldable pub sql_exec : Text → Dbs → Dbs
unfolding call
sql_exec sql s = call (exe_sql sql) s

unfoldable pub init_my_sql : Dbs → Dbs
unfolding sql_exec
init_my_sql = sql_exec (
    codes
      "CREATE TABLE IF NOT EXISTS `transInfo`(         `id` INT UNSIGNED AUTO_INCREMENT,           `txid` INT UNSIGNED NOT NULL,           `lsn` int,          `needLocalConflict` bool,           `needGlobalConflict` bool,          `fileName` VARCHAR(40),          PRIMARY KEY(`id`)      )ENGINE=InnoDB DEFAULT CHARSET=UTF8;")

unfoldable pub sql_insert : ℕ → ℕ → Text → Dbs → Dbs
unfolding sql_exec to_string
sql_insert txid lsn file_name s =
    let head =
      codes
        "INSERT INTO transInfo(txid,lsn,needLocalConflict,needGlobalConflict,fileName)     VALUES (" in
    let values = to_string txid ++ (b',' ∷ (to_string lsn ++ codes ", true, true,")) in
    sql_exec (head ++ (values ++ (file_name ++ codes ");"))) s

-- `sql += txid` appends one character: the `int` is converted to a char.
abbrev pub char_of : ℕ → Text
char_of txid = (txid % 256) ∷ []

unfoldable pub sql_update_need_local_conflict : ℕ → Dbs → Dbs
unfolding sql_exec
sql_update_need_local_conflict txid s =
    sql_exec
      (codes "UPDATE transInfo SET needLocalConflict=false WHERE txid="
        ++ (char_of txid ++ codes ";"))
      s

unfoldable pub sql_update_need_global_conflict : ℕ → Dbs → Dbs
unfolding sql_exec
sql_update_need_global_conflict txid s =
    sql_exec
      (codes "UPDATE transInfo SET needGlobalConflict=false WHERE txid="
        ++ (char_of txid ++ codes ";"))
      s

-- The loop that writes the write set into a message.
unfoldable pub data_vec : List Data → List Net.Data
data_vec [] = []
data_vec (d ∷ ds) = create_data (some d.key) (some d.attribute) (some d.value) ∷ data_vec ds

unfoldable pub get_lsn : ℕ → Dbs → Outcome Dbs
unfolding send
get_lsn txid s = do
  conn ← deref s.dbtl_conn
  ok (send conn (dbtl_msg (create_dbtl_msg k_lsn txid none)) s)

unfoldable pub judge_global_conflict : ℕ → Dbs → Outcome Dbs
unfolding send
judge_global_conflict txid s = do
  conn ← deref s.gtm_conn
  ok (send conn (gtm_msg (create_gtm_msg k_judge_conflit txid false none)) s)

unfoldable pub send_log : Transaction → Dbs → Outcome Dbs
unfolding send data_vec
send_log tran s = do
  conn ← deref s.dbtl_conn
  ok (send conn (dbtl_msg (create_dbtl_msg k_log tran.txid (some (data_vec tran.write_set)))) s)

module _ (hash : Text → ℕ) (dbtm_log_path : Text) where
  unfoldable pub log_file : ℕ → Text
  unfolding to_string
  log_file txid = dbtm_log_path ++ to_string txid

  unfoldable pub sql_delete : ℕ → Dbs → Dbs
  unfolding sql_exec call log_file
  sql_delete txid s =
      let sql =
        codes "DELETE FROM transInfo         where txid = " ++ (char_of txid ++ codes ";") in
      call (remove_file (log_file txid)) (sql_exec sql s)

  -- The file is opened for reading only, so that `write` fails; the result is not looked at.
  unfoldable pub write_to_disk_and_sql : Transaction → Dbs → Dbs
  unfolding data_vec call log_file sql_insert to_string
  write_to_disk_and_sql tran s =
      let msg = dbtl_msg (create_dbtl_msg k_data tran.txid (some (data_vec tran.write_set))) in
      sql_insert tran.txid tran.lsn (to_string tran.txid)
        (call (write_file (log_file tran.txid) msg) s)

  -- One of the two loops of the check: it stops at the first conflict.
  unfoldable pub check_keys : List Data → ℕ → Mhash → Outcome (Bool × Mhash)
  check_keys [] lsn wcheck = ok (false, wcheck)
  check_keys (d ∷ ds) lsn wcheck = do
    wcheck' ← del_less_than hash wcheck d.key lsn
    found ← exist hash wcheck' d.key
    let rest = check_keys ds lsn wcheck'
    if found then ok (true, wcheck') else rest

  unfoldable pub check : Transaction → Mhash → Outcome (Bool × Mhash)
  unfolding check_keys
  check tran wcheck = do
    (conflict, wcheck') ← check_keys tran.read_set tran.lsn wcheck
    let rest = check_keys tran.write_set tran.lsn wcheck'
    if conflict then ok (true, wcheck') else rest

  -- The loop over the write set.
  unfoldable pub insert_keys : List Data → ℕ → Mhash → Outcome Mhash
  insert_keys [] lsn wcheck = ok wcheck
  insert_keys (d ∷ ds) lsn wcheck = Hash.insert hash wcheck d.key lsn >>= insert_keys ds lsn

  unfoldable pub cache_rw_set : ℕ → Dbs → Outcome Dbs
  unfolding load insert_keys send_log
  cache_rw_set p s = do
    tran ← load p s
    wcheck ← insert_keys tran.write_set tran.lsn s.wcheck
    send_log tran (record s { wcheck = wcheck })

  -- The end of the check for the transaction at `p`, without a conflict
  unfoldable pub pass : ℕ → Transaction → Dbs → Outcome Dbs
  unfolding sql_update_need_local_conflict judge_global_conflict cache_rw_set
  pass p tran s =
      let moved : Dbs = record s {
        dbtm_table = insert s.dbtm_table tran.txid p;
        txid_trans = erase s.txid_trans tran.txid;
      } in
      let noted = sql_update_need_local_conflict tran.txid moved in
      if tran.need_global_conflct
      then judge_global_conflict tran.txid noted
      else cache_rw_set p noted

  -- and with one. `retResult` may have deleted the transaction that is read then.
  unfoldable pub refuse : ℕ → Transaction → Dbs → Outcome Dbs
  unfolding ret_result load send
  refuse p tran s = do
    s' ← ret_result k_tran_fail tran.txid s
    tran' ← load p s'
    let tell = deref s'.gtm_conn >>= λ conn.
        ok (send conn (gtm_msg (create_gtm_msg k_judge_conflit tran'.txid true none)) s')
    if tran'.need_global_conflct then tell else ok s'

  unfoldable pub judge_local_conflict : ℕ → Dbs → Outcome Dbs
  judge_local_conflict p s = do
    tran ← load p s
    let s' = write_to_disk_and_sql tran s
    (conflict, wcheck) ← check tran s'.wcheck
    let checked : Dbs = record s' { wcheck = wcheck }
    if conflict then refuse p tran checked else pass p tran checked

  unfoldable pub solve : DbtmMsg → Dbs → Outcome Dbs
  unfolding cache_rw_set sql_update_need_global_conflict sql_delete ret_result
  solve msg s =
      let accepted = (do
        p ← deref (s.dbtm_table msg.txid)
        s' ← cache_rw_set p s
        ok (sql_update_need_global_conflict msg.txid s')) in
      let refused = ret_result k_tran_fail msg.txid (sql_delete msg.txid s) in
      if msg.cmd == k_judge_conflit
      then (if not msg.is_global_conflict then accepted else refused)
      else ok s
