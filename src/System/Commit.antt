-- ===== src/System/Commit.antt =====
-- transaction/dbservice and transaction/dbtl together: from the log of a transaction that has
-- passed to its success.
use grit.Common.{Outcome, ◌>>=◌, ℕ, ◌≡◌, false, none, some, List, [], ◌∷◌, ◌++◌, map}
use grit.Net.{
  Conn, Sent, RootMsg, dbtl_msg, db_msg, es_msg, create_dbtl_msg, create_db_msg, create_es_msg,
}
use grit.Net.HeaderCmd.{k_log, k_tran_success}
use grit.Dbtl.{Dbtl}
use grit.Dbtl.Store.{run_task}
use grit.Dbtl.Store
use grit.DbService.{Data, Dbs}
use grit.DbService.Dbtm.{data_vec}
use grit.DbService.Handler

-- The log of a transaction, as it goes to the log store and from there to the storage servers.
abbrev pub log_msg : ℕ → List Data → RootMsg
log_msg t ds = dbtl_msg (create_dbtl_msg k_log t (some (data_vec ds)))

abbrev pub to_servers : ℕ → List Data → List Conn → List Sent
to_servers t ds = map (λ c. (c, db_msg (create_db_msg t (some (data_vec ds)))))

-- A log comes in and its task runs, with the message still in the memory.
abbrev pub store_log : ℕ → Conn → ℕ → List Data → Dbtl → Outcome Dbtl
store_log max_retry dbs t ds d =
    Store.on_message max_retry dbs (log_msg t ds) d >>= run_task false (some (data_vec ds))

-- The end of a transaction in its database service.
pub record Committed (t p : ℕ) (es : Conn) (outbox : List Sent) (s' : Dbs) : Type 0 where
  pub said :
      s'.outbox
      ≡ outbox ++ (es, es_msg (create_es_msg k_tran_success t false 0 none none none)) ∷ []
  pub gone : s'.dbtm_table t ≡ none
  pub deleted : s'.heap p ≡ none
