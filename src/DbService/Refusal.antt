-- ===== src/DbService/Refusal.antt =====
-- The local check of a transaction that has a key: it refuses, or reads a null pointer.
use grit.Common.{
  Bool-cases, Safely, Safely->>=, Table, Text, ℕ, ◌≡◌, refl, inl, inr, Bool, true, false, ◌||◌,
  Option, none, some, List, [], ◌∷◌, ◌++◌,
}
use grit.Net.{Conn, Sent, RootMsg, es_msg, gtm_msg, create_es_msg, create_gtm_msg}
use grit.Net.HeaderCmd.{k_judge_conflit, k_tran_fail}
use grit.Hash.{Mhash, del_less_than}
use grit.Hash.Insert
use grit.Hash.Delete.{del_less_than-IsValid, exist-del_less_than}
use grit.Hash.Safe.{Anything, del_less_than-Safely}
use grit.DbService.{Data, Transaction, Dbs}
use grit.DbService.Dbtm.{check_keys, check}
use grit.DbService.Sound.{IsValid}

abbrev pub some_data : List Data → Bool
some_data [] = false
some_data (d ∷ ds) = true

abbrev pub has_keys : Transaction → Bool
has_keys tran = some_data tran.read_set || some_data tran.write_set

-- What is sent when a transaction is refused.
abbrev pub failure : ℕ → RootMsg
failure txid = es_msg (create_es_msg k_tran_fail txid false 0 none none none)

unfoldable pub refusal : ℕ → Bool → Conn → Option Conn → List Sent
refusal txid true es (some gtm) =
    (es, failure txid) ∷ (gtm, gtm_msg (create_gtm_msg k_judge_conflit txid true none)) ∷ []
refusal txid _ es _ = (es, failure txid) ∷ []

pub record RefusedFrom (tran : Transaction) (table : Table Conn) (outbox : List Sent)
    (gtm : Option Conn) (trans : Table ℕ) (s' : Dbs) : Type 0 where
  pub es : Conn
  pub known : table tran.txid ≡ some es
  pub said : s'.outbox ≡ outbox ++ refusal tran.txid tran.need_global_conflct es gtm
  pub still : s'.txid_trans ≡ trans
  pub gone : s'.dbtm_table tran.txid ≡ none

abbrev pub Refused : Transaction → Dbs → Dbs → Type 0
Refused tran s = RefusedFrom tran s.table s.outbox s.gtm_conn s.txid_trans

-- The answer to the entity service, for a transaction that has not passed its check.
record Answered (tran : Transaction) (p : ℕ) (s s' : Dbs) : Type 0 where
  es : Conn
  known : s.table tran.txid ≡ some es
  said : s'.outbox ≡ s.outbox ++ (es, failure tran.txid) ∷ []
  there : s'.heap p ≡ some tran
  same_gtm : s'.gtm_conn ≡ s.gtm_conn
  still : s'.txid_trans ≡ s.txid_trans
  gone : s'.dbtm_table tran.txid ≡ none

module _ (hash : Text → ℕ) (dbtm_log_path : Text) where
  -- A loop of the check stops at its first key with a conflict, whatever has been written before.
  check_keys-conflict :
      (ds : List Data) (lsn : ℕ) (m : Mhash)
      → Insert.IsValid m
      → Safely
          (λ r. Insert.IsValid r.1 × (r.0 ≡ some_data ds))
          (check_keys hash dbtm_log_path ds lsn m)
  unfolding check_keys
  check_keys-conflict [] lsn m v = (v, refl)
  check_keys-conflict (d ∷ ds) lsn m v =
      let P : Bool × Mhash → Type 0 = λ r. Insert.IsValid r.1 × (r.0 ≡ true) in
      Safely->>= Anything P (del_less_than hash m d.key lsn) _
        (del_less_than-Safely hash m d.key lsn)
        λ m' e _.
          rw (exist-del_less_than hash m m' d.key lsn v e)
            (del_less_than-IsValid hash m m' d.key lsn v e, refl)

  pub check-conflict :
      (tran : Transaction) (m : Mhash)
      → Insert.IsValid m
      → Safely (λ r. Insert.IsValid r.1 × (r.0 ≡ has_keys tran)) (check hash dbtm_log_path tran m)
  unfolding check
  check-conflict tran m v =
      let P : Bool × Mhash → Type 0 = λ r. Insert.IsValid r.1 × (r.0 ≡ has_keys tran) in
      Safely->>= (λ r. Insert.IsValid r.1 × (r.0 ≡ some_data tran.read_set)) P
        (check_keys hash dbtm_log_path tran.read_set tran.lsn m) _
        (check_keys-conflict tran.read_set tran.lsn m v)
        λ (conflict, m') _ (v', c). elim (Bool-cases (some_data tran.read_set)) [
          | inl reads ↦ rw (c, reads) (v', refl)
          | inr none_read ↦ rw (c, none_read) (check_keys-conflict tran.write_set tran.lsn m' v')
        ]
