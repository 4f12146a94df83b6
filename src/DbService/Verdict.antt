-- ===== src/DbService/Verdict.antt =====
-- The verdict of the global manager on a transaction that has passed its local check.
use grit.Common.{
  if◌then◌else◌, Table, Text, ℕ, ◌≡◌, Bool, Option, none, some, List, [], ◌∷◌, ◌++◌, ok,
}
use grit.Net.{Conn, Sent, dbtl_msg, create_dbtl_msg}
use grit.Net.HeaderCmd.{k_log}
use grit.Hash.{Mhash}
use grit.DbService.{Transaction, Dbs}
use grit.DbService.Dbtm.{data_vec, insert_keys}
use grit.DbService.Refusal.{failure}

-- No conflict: the log of the whole write set goes to the log store, and nothing else is sent; the
-- keys have been inserted; the transaction is kept until the log store answers.
pub record Accepted (hash : Text → ℕ) (path : Text) (t p : ℕ) (tran : Transaction)
    (dbtl : Option Conn) (outbox : List Sent) (wcheck : Mhash) (s' : Dbs) : Type 0 where
  pub log_store : Conn
  pub known : dbtl ≡ some log_store
  pub said :
      s'.outbox
      ≡ outbox
        ++ (log_store, dbtl_msg (create_dbtl_msg k_log t (some (data_vec tran.write_set)))) ∷ []
  pub inserted : insert_keys hash path tran.write_set tran.lsn wcheck ≡ ok s'.wcheck
  pub still : s'.dbtm_table t ≡ some p

-- A conflict: the entity service is told of the failure, and nothing else is sent; the transaction is
-- deleted.
pub record Rejected (t p : ℕ) (table : Table Conn) (outbox : List Sent) (s' : Dbs) : Type 0 where
  pub es : Conn
  pub known : table t ≡ some es
  pub said : s'.outbox ≡ outbox ++ (es, failure t) ∷ []
  pub gone : s'.dbtm_table t ≡ none
  pub deleted : s'.heap p ≡ none

module _ (hash : Text → ℕ) (path : Text) where
  abbrev pub Settled : ℕ → ℕ → Transaction → Bool → Dbs → Dbs → Type 0
  Settled t p tran conflict s =
      if conflict
      then Rejected t p s.table s.outbox
      else Accepted hash path t p tran s.dbtl_conn s.outbox s.wcheck
