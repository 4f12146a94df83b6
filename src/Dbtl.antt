-- ===== src/Dbtl.antt =====
-- transaction/dbtl/dbtl.h and dbtl.cc, logplayer.h and logplayer.cc: the log store and its log
-- player. A map from transaction ids to lists is a function: `[]` makes an empty list for a missing
-- id. `max_retry` is lpMaxRetryTime of the configuration and `use_rocks_db` is dbtlUseRocksDb.
mod Tests
pub mod Store
pub mod Replies
pub mod Broadcast
pub mod Retry
pub mod Answers
pub mod Resend
pub mod Meanwhile
pub mod Players
pub mod Readable
pub mod Runs
pub mod Spared
pub mod SparedStore
pub mod Confirmed
use grit.Common.{
  ltb, ◌==◌, if◌then◌else◌, length, get_elem?, set, replicate, Outcome, ◌>>=◌, or_fault, Table,
  no_entries, insert, get_default, word_mod, sign_bit, minus_one, incr, slt, Text, ℕ, zero, suc,
  ◌+◌, ◌-◌, ◌*◌, ◌/◌, ◌^◌, false, none, some, List, [], ◌∷◌, ◌++◌, ok, fault, out_of_range,
  out_of_limits,
}
use grit.Net.{
  Conn, Sent, RootMsg, db_msg, dbtm_msg, create_data, create_db_msg, create_dbtm_msg, to_bool,
  LogPlayerMsg,
}
use grit.Net.HeaderCmd.{k_exec_tran_succ, k_exec_tran_fail}
use grit.Net
use grit.TimeWheel.{TimeWheel, time_wheel, add_timer, take_all_timeout}

pub record LogInfo : Type 0 where
  pub key : Text
  pub attribute : Text
  pub value : Text

-- What is handed to the file system and to RocksDB, with no use of the answers.
pub data Call : Type 0 where
  write_file : Text → Text → Call
  write_batch : List (Text × Text) → Call

-- Both classes, which share the connections and the tables. The callbacks of the wheel are calls of
-- `playLog`, each for a transaction. A task is a log that has been received: the transaction and the
-- connection. The log itself is a pointer into the buffer of the handler.
pub record Dbtl : Type 0 where
  pub apply_lsn : ℕ
  pub log_table : ℕ → List LogInfo
  pub db_conn_vec : List Conn
  pub answer_table : Table (List ℕ)
  pub retry_table : ℕ → List ℕ
  pub time_wheel : TimeWheel ℕ
  pub outbox : List Sent
  pub calls : List Call
  pub tasks : List (ℕ × Conn)

-- The constructor, at the time `now`. Nothing sets `applyLsn_`: it starts with what is in memory.
pub dbtl : ℕ → ℕ → Dbtl
dbtl apply_lsn now = record {
  apply_lsn = apply_lsn;
  log_table = λ _. [];
  db_conn_vec = [];
  answer_table = no_entries;
  retry_table = λ _. [];
  time_wheel = time_wheel 6000 now;
  outbox = [];
  calls = [];
  tasks = [];
}

unfoldable pub send : Conn → RootMsg → Dbtl → Dbtl
send conn msg s = record s { outbox = s.outbox ++ (conn, msg) ∷ [] }

unfoldable pub on_db_connection : Conn → Dbtl → Dbtl
on_db_connection conn s = record s { db_conn_vec = s.db_conn_vec ++ conn ∷ [] }

-- The positions 0, …, n - 1, from `i` on.
unfoldable pub positions : ℕ → ℕ → List ℕ
positions i zero = []
positions i (suc n) = i ∷ positions (i + 1) n

-- A transaction that is played for the first time waits for the answers of all servers.
unfoldable pub start_answers : ℕ → Dbtl → Dbtl
unfolding positions
start_answers txid s = elim (s.answer_table txid) [
  | some waiting ↦ s
  | none ↦ record s {
    answer_table = insert s.answer_table txid (positions 0 (length s.db_conn_vec));
    retry_table = λ t. if txid == t then replicate (length s.db_conn_vec) 0 else s.retry_table t;
  }
]

unfoldable pub log_data : List LogInfo → List Net.Data
log_data [] = []
log_data (l ∷ ls) = create_data (some l.key) (some l.attribute) (some l.value) ∷ log_data ls

-- The loop over the servers that have not answered.
unfoldable pub send_all : List ℕ → RootMsg → Dbtl → Outcome Dbtl
unfolding send
send_all [] msg s = ok s
send_all (pos ∷ rest) msg s = do
  conn ← or_fault out_of_range (get_elem? s.db_conn_vec pos)
  send_all rest msg (send conn msg s)

unfoldable pub play_log : ℕ → Dbtl → Outcome Dbtl
unfolding start_answers log_data send_all
play_log txid s =
    let s' = start_answers txid s in
    send_all (get_default [] (s'.answer_table txid))
      (db_msg (create_db_msg txid (some (log_data (s'.log_table txid))))) s'

-- std::list::remove.
unfoldable pub remove : ℕ → List ℕ → List ℕ
remove id [] = []
remove id (x ∷ xs) = let rest = remove id xs in if x == id then rest else x ∷ rest

-- pow(2, time) * 1000 as an unsigned long long, for an `int`: a double that is too large for it is
-- not converted.
unfoldable pub delay : ℕ → Outcome ℕ
delay time =
    if ltb time 55
    then ok (2 ^ time * 1000)
    else if ltb time sign_bit
    then fault out_of_limits
    else ok (1000 / 2 ^ (word_mod - time))

-- LogPlayer::solve.
unfoldable pub answer : ℕ → LogPlayerMsg → Dbtl → Outcome Dbtl
unfolding remove delay
answer max_retry msg s =
    let left = remove msg.id (get_default [] (s.answer_table msg.txid)) in
    let done : Dbtl = record s { answer_table = insert s.answer_table msg.txid left } in
    let failed = (do
      let times = s.retry_table msg.txid
      before ← or_fault out_of_range (get_elem? times msg.id)
      let time = incr before
      let counted : Dbtl = record s {
        retry_table = λ t. if msg.txid == t then set times msg.id time else s.retry_table t;
      }
      let again = delay time >>= λ timeout.
          ok (record counted { time_wheel = (add_timer s.time_wheel timeout msg.txid).0 })
      if slt max_retry time then ok counted else again) in
    if msg.cmd == k_exec_tran_succ
    then ok done
    else if msg.cmd == k_exec_tran_fail
    then failed
    else ok s

-- The callbacks that a look at the clock runs, in their order.
unfoldable pub play_all : List ℕ → Dbtl → Outcome Dbtl
unfolding play_log
play_all [] s = ok s
play_all (txid ∷ txids) s = play_log txid s >>= play_all txids

unfoldable pub poll : ℕ → Dbtl → Outcome Dbtl
unfolding play_all
poll time s =
    let (wheel, fired) = take_all_timeout s.time_wheel time in
    play_all fired (record s { time_wheel = wheel })

-- Dbtl::retResult. The number is passed where the message has its flag.
unfoldable pub ret_result : ℕ → ℕ → ℕ → Conn → Dbtl → Dbtl
unfolding send
ret_result cmd txid lsn conn s =
    let flag = if lsn == minus_one then false else to_bool lsn in
    send conn (dbtm_msg (create_dbtm_msg cmd txid flag 0)) s
