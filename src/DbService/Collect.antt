-- ===== src/DbService/Collect.antt =====
-- The data of one transaction, in as many messages as it takes.
use grit.Common.{Outcome, ◌>>=◌, ℕ, ◌≡◌, false, some, List, [], ◌∷◌, ◌++◌, ok}
use grit.Net.{Conn}
use grit.DbService.{Data, Transaction, Dbs}
use grit.DbService.Order.{data_msg, unlabelled}
use grit.DbService.Handler.{on_message}

-- The messages of one entity service about the transaction `t`, in the order of their arrival.
unfoldable pub receive : Conn → ℕ → List (List Data × List Data) → Dbs → Outcome Dbs
receive conn t [] s = ok s
receive conn t ((reads, writes) ∷ sets) s =
    on_message conn (data_msg t reads writes) s >>= receive conn t sets

unfoldable pub all_reads : List (List Data × List Data) → List Data
all_reads [] = []
all_reads ((reads, writes) ∷ sets) = unlabelled reads ++ all_reads sets

unfoldable pub all_writes : List (List Data × List Data) → List Data
all_writes [] = []
all_writes ((reads, writes) ∷ sets) = unlabelled writes ++ all_writes sets

-- A transaction that has asked for its number.
abbrev pub collected : ℕ → List Data → List Data → Transaction
collected t reads writes = record {
  txid = t;
  read_set = reads;
  write_set = writes;
  need_global_conflct = false;
  lsn = 0;
  already_commit = false;
}

pub record Collects (conn : Conn) (t p : ℕ) (reads writes : List Data) (s : Dbs) : Type 0 where
  pub found : s.txid_trans t ≡ some p
  pub here : s.heap p ≡ some (collected t reads writes)
  pub answers_to : s.table t ≡ some conn
