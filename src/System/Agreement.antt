-- ===== src/System/Agreement.antt =====
-- transaction/gtm and transaction/dbservice together: all services of a transaction end it the same
-- way.
use grit.Common.{Safely, Text, ℕ, ◌≡◌, Bool, some}
use grit.Net.{create_dbtm_msg}
use grit.Net.HeaderCmd.{k_judge_conflit}
use grit.Gtm.{Gtm}
use grit.DbService.{Transaction, Dbs}
use grit.DbService.Dbtm.{solve}
use grit.DbService.Verdict.{Settled}

-- A database service in which a transaction has passed its local check.
pub record Service : Type 0 where
  pub state : Dbs
  pub at : ℕ
  pub tran : Transaction

abbrev pub HasPassed : ℕ → Service → Type 0
HasPassed t x =
    (x.state.dbtm_table t ≡ some x.at) × (x.state.heap x.at ≡ some x.tran) × (x.tran.txid ≡ t)

module _ (hash : Text → ℕ) (path : Text) where
  -- What a verdict does in a service.
  abbrev pub Ends : ℕ → Bool → Service → Type 0
  Ends t conflict x =
      Safely (Settled hash path t x.at x.tran conflict x.state)
        (solve hash path (create_dbtm_msg k_judge_conflit t conflict 0) x.state)
