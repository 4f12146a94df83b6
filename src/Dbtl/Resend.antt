-- ===== src/Dbtl/Resend.antt =====
-- A failure of a storage server, and the clock: when the log is played again.
use grit.Common.{◌==◌, if◌then◌else◌, set, ℕ, suc, ◌*◌, ◌^◌, some, List}
use grit.Net.{Sent, db_msg, create_db_msg}
use grit.TimeWheel.{TimeWheel, add_timer}
use grit.TimeWheel.Due
use grit.Dbtl.{Dbtl, log_data}
use grit.Dbtl.Answers.{sent_to}

-- The log of a transaction, to the servers that are waited for.
abbrev pub resent : ℕ → List ℕ → Dbtl → List Sent
resent txid waiting s =
    sent_to s.db_conn_vec (db_msg (create_db_msg txid (some (log_data (s.log_table txid))))) waiting

-- What a failure leaves that is not the last.
counted_table : ℕ → ℕ → ℕ → Dbtl → ℕ → List ℕ
counted_table txid id n s t =
    if txid == t then set (s.retry_table txid) id (suc n) else s.retry_table t

again : ℕ → ℕ → ℕ → Dbtl → Dbtl
unfolding counted_table
again txid id n s = record s {
  retry_table = counted_table txid id n s;
  time_wheel = (add_timer s.time_wheel (2 ^ suc n * 1000) txid).0;
}
