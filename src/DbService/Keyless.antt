-- ===== src/DbService/Keyless.antt =====
-- The local check of a transaction without any key.
use grit.Common.{
  if◌then◌else◌, ==_refl, ◌>>=◌, deref, Returns, Table, insert, erase, Text, ℕ, ◌≡◌, refl, Bool,
  true, false, Option, none, some, List, [], ◌∷◌, ◌++◌, ok,
}
use grit.Net.{Conn, Sent, RootMsg, dbtl_msg, gtm_msg, create_dbtl_msg, create_gtm_msg}
use grit.Net.HeaderCmd.{k_log, k_judge_conflit}
use grit.Hash.{Mhash}
use grit.DbService.{Transaction, Dbs, send}
use grit.DbService.Dbtm.{
  call, sql_exec, sql_insert, sql_update_need_local_conflict, data_vec, write_to_disk_and_sql,
  check_keys, check, insert_keys, cache_rw_set, send_log, judge_global_conflict, pass,
  judge_local_conflict,
}
use grit.DbService.Sound.{load-eq-ok}

-- What is sent when it has passed: the question to the global manager, or the log, which is empty.
abbrev pub passed_msg : ℕ → Bool → Conn → Conn → Sent
passed_msg t need gtm dbtl =
    if need
    then (gtm, gtm_msg (create_gtm_msg k_judge_conflit t false none))
    else (dbtl, dbtl_msg (create_dbtl_msg k_log t (some [])))

-- One message of the end of the check, to a connection that may be missing.
told :
    (o : Option Conn) (conn : Conn) (msg : RootMsg) (s : Dbs)
    → o ≡ some conn
    → (deref o >>= λ c. ok (send c msg s)) ≡ ok (send conn msg s)
told o conn msg s e = rw e refl

abbrev pub keyless : ℕ → Bool → ℕ → Bool → Transaction
keyless t need lsn early = record {
  txid = t;
  read_set = [];
  write_set = [];
  need_global_conflct = need;
  lsn = lsn;
  already_commit = early;
}

-- The tables and the notes of a transaction that has passed.
moved : ℕ → ℕ → Dbs → Dbs
moved t p s =
    sql_update_need_local_conflict t
      (record s { dbtm_table = insert s.dbtm_table t p; txid_trans = erase s.txid_trans t })

pub record PassedFrom (t p : ℕ) (outbox : List Sent) (sent : Sent) (wcheck : Mhash)
    (heap : Table Transaction) (table : Table Conn) (s' : Dbs) : Type 0 where
  pub said : s'.outbox ≡ outbox ++ sent ∷ []
  pub found : s'.dbtm_table t ≡ some p
  pub gone : s'.txid_trans t ≡ none
  pub same_keys : s'.wcheck ≡ wcheck
  pub same_heap : s'.heap ≡ heap
  pub same_table : s'.table ≡ table

pass-PassedFrom :
    (hash : Text → ℕ) (path : Text) (t p lsn : ℕ) (need early : Bool) (s : Dbs) (gtm dbtl : Conn)
    → s.heap p ≡ some (keyless t need lsn early)
    → s.gtm_conn ≡ some gtm
    → s.dbtl_conn ≡ some dbtl
    → Returns
        (pass hash path p (keyless t need lsn early) s)
        (PassedFrom t p s.outbox (passed_msg t need gtm dbtl) s.wcheck s.heap s.table)
unfolding pass moved sql_update_need_local_conflict sql_exec call judge_global_conflict send
pass-PassedFrom hash path t p lsn true early s gtm dbtl here to_gtm to_dbtl =
    let msg = gtm_msg (create_gtm_msg k_judge_conflit t false none) in
    (
      send gtm msg (moved t p s),
      told s.gtm_conn gtm msg (moved t p s) to_gtm,
      record {
        said = refl;
        found = rw (==_refl t) refl;
        gone = rw (==_refl t) refl;
        same_keys = refl;
        same_heap = refl;
        same_table = refl;
      },
    )
pass-PassedFrom hash path t p lsn false early s gtm dbtl here to_gtm to_dbtl =
    let msg = dbtl_msg (create_dbtl_msg k_log t (some [])) in
    (
      send dbtl msg (moved t p s),
      unfold cache_rw_set insert_keys send_log data_vec in
          rw (load-eq-ok p (moved t p s) here) (told s.dbtl_conn dbtl msg (moved t p s) to_dbtl),
      record {
        said = refl;
        found = rw (==_refl t) refl;
        gone = rw (==_refl t) refl;
        same_keys = refl;
        same_heap = refl;
        same_table = refl;
      },
    )

-- With both connections up, a transaction without any key passes the local check: the global manager
-- is asked if that is wanted, and else the log store gets an empty log; nothing else is sent; the
-- transaction moves from the unchecked ones to those that have passed, it is kept on the heap, and no
-- key is written.
pub judge_local_conflict-PassedFrom :
    (hash : Text → ℕ) (path : Text) (t p lsn : ℕ) (need early : Bool) (s : Dbs) (gtm dbtl : Conn)
    → s.heap p ≡ some (keyless t need lsn early)
    → s.gtm_conn ≡ some gtm
    → s.dbtl_conn ≡ some dbtl
    → Returns
        (judge_local_conflict hash path p s)
        (PassedFrom t p s.outbox (passed_msg t need gtm dbtl) s.wcheck s.heap s.table)
unfolding judge_local_conflict check check_keys write_to_disk_and_sql sql_insert sql_exec call
judge_local_conflict-PassedFrom hash path t p lsn need early s gtm dbtl here to_gtm to_dbtl =
    let tran = keyless t need lsn early in
    let logged = write_to_disk_and_sql hash path tran s in
    let (s', run, facts) =
      pass-PassedFrom hash path t p lsn need early logged gtm dbtl here to_gtm to_dbtl in
    (s', rw (load-eq-ok p s here) run, facts)
