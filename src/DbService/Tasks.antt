-- ===== src/DbService/Tasks.antt =====
-- The tasks of the pool: they delete no transaction twice, and the local check decides as it does.
use grit.Common.{
  ◌==◌, if◌then◌else◌, Bool-cases, Option-cases, eq_false, deref, Safely, Safely->>=, Text, ℕ, ◌≡◌,
  ◌≢◌, inl, inr, Bool, true, false, some, List, [], ◌∷◌,
}
use grit.Net.{DbtmMsg}
use grit.Net.HeaderCmd.{k_judge_conflit, k_tran_fail}
use grit.Hash.{Mhash, del_less_than, exist}
use grit.Hash
use grit.Hash.Safe.{Anything, insert-Safely, exist-Safely, del_less_than-Safely}
use grit.DbService.{
  Data, Transaction, Dbs, Task, get_lsn_task, judge_local_conflict_task, solve_task, send, delete,
  ret_result,
}
use grit.DbService.Dbtm.{
  call, sql_exec, sql_delete, sql_update_need_local_conflict, sql_update_need_global_conflict,
  sql_insert, write_to_disk_and_sql, get_lsn, judge_global_conflict, send_log, insert_keys,
  check_keys, check, cache_rw_set, pass, refuse, judge_local_conflict, solve,
}
use grit.DbService.Owns.{Owns-pass, Owns-delete, Owns-erase}
use grit.DbService.Sound.{IsValid, deref-Safely, load-eq-ok, ret_result-Safely}
use grit.DbService.Handler.{run}

-- A pointer that a task has is still the one that the table of unchecked transactions holds.
abbrev pub IsReady : Dbs → Task → Type 0
IsReady s (judge_local_conflict_task p) =
    (tran : Transaction) × (s.heap p ≡ some tran) × (s.txid_trans tran.txid ≡ some p)
IsReady s _ = Unit

get_lsn-Safely : (t : ℕ) (s : Dbs) → IsValid s → Safely IsValid (get_lsn t s)
unfolding get_lsn send
get_lsn-Safely t s v =
    Safely->>= Anything IsValid (deref s.dbtl_conn) _ (deref-Safely s.dbtl_conn) λ conn _ _. v

judge_global_conflict-Safely :
    (t : ℕ) (s : Dbs) → IsValid s → Safely IsValid (judge_global_conflict t s)
unfolding judge_global_conflict send
judge_global_conflict-Safely t s v =
    Safely->>= Anything IsValid (deref s.gtm_conn) _ (deref-Safely s.gtm_conn) λ conn _ _. v

send_log-Safely : (tran : Transaction) (s : Dbs) → IsValid s → Safely IsValid (send_log tran s)
unfolding send_log send
send_log-Safely tran s v =
    Safely->>= Anything IsValid (deref s.dbtl_conn) _ (deref-Safely s.dbtl_conn) λ conn _ _. v

-- The refusal of a transaction that has not passed its check does not delete it.
ret_result-keeps :
    (status t p : ℕ) (s : Dbs) (tran : Transaction)
    → IsValid s
    → s.heap p ≡ some tran
    → s.txid_trans t ≡ some p
    → Safely (λ s'. IsValid s' × (s'.heap p ≡ some tran)) (ret_result status t s)
unfolding ret_result send delete
ret_result-keeps status t p s tran v here held =
    Safely->>= Anything (λ s'. IsValid s' × (s'.heap p ≡ some tran)) (deref (s.table t)) _
      (deref-Safely (s.table t))
      λ conn _ _. elim (Option-cases (s.dbtm_table t)) [
        | inl missing ↦ rw missing (Owns-erase t v, here)
        | inr (q, e) ↦
            let (old, e', own) = v.checked t q e in
            let away : q ≢ p = λ same. v.apart t p held (rw (← same) e) in
            rw (e, e') (Owns-delete t q v e, rw (eq_false away) here)
      ]

module _ (hash : Text → ℕ) (dbtm_log_path : Text) where
  pub insert_keys-Safely :
      (ds : List Data) (lsn : ℕ) (m : Mhash)
      → Safely Anything (insert_keys hash dbtm_log_path ds lsn m)
  unfolding insert_keys
  insert_keys-Safely [] lsn m = tt
  insert_keys-Safely (d ∷ ds) lsn m =
      Safely->>= Anything Anything (Hash.insert hash m d.key lsn) _ (insert-Safely hash m d.key lsn)
        λ m' _ _. insert_keys-Safely ds lsn m'

  check_keys-Safely :
      (ds : List Data) (lsn : ℕ) (m : Mhash)
      → Safely Anything (check_keys hash dbtm_log_path ds lsn m)
  unfolding check_keys
  check_keys-Safely [] lsn m = tt
  check_keys-Safely (d ∷ ds) lsn m =
      Safely->>= Anything Anything (del_less_than hash m d.key lsn) _
        (del_less_than-Safely hash m d.key lsn)
        λ m' _ _.
          Safely->>= Anything Anything (exist hash m' d.key) _ (exist-Safely hash m' d.key)
            λ found _ _. elim (Bool-cases found) [
              | inl e ↦ rw e tt
              | inr e ↦ rw e (check_keys-Safely ds lsn m')
            ]

  pub check-Safely :
      (tran : Transaction) (m : Mhash) → Safely Anything (check hash dbtm_log_path tran m)
  unfolding check
  check-Safely tran m =
      Safely->>= Anything Anything (check_keys hash dbtm_log_path tran.read_set tran.lsn m) _
        (check_keys-Safely tran.read_set tran.lsn m)
        λ (conflict, m') _ _. elim (Bool-cases conflict) [
          | inl e ↦ rw e tt
          | inr e ↦ rw e (check_keys-Safely tran.write_set tran.lsn m')
        ]

  cache_rw_set-Safely :
      (p : ℕ) (s : Dbs) (tran : Transaction)
      → IsValid s
      → s.heap p ≡ some tran
      → Safely IsValid (cache_rw_set hash dbtm_log_path p s)
  unfolding cache_rw_set
  cache_rw_set-Safely p s tran v e = rw (load-eq-ok p s e) (
      Safely->>= Anything IsValid (insert_keys hash dbtm_log_path tran.write_set tran.lsn s.wcheck)
        _ (insert_keys-Safely tran.write_set tran.lsn s.wcheck)
        λ m _ _. send_log-Safely tran (record s { wcheck = m }) v)

  pass-Safely :
      (p : ℕ) (tran : Transaction) (s : Dbs)
      → IsValid s
      → s.heap p ≡ some tran
      → Safely IsValid (pass hash dbtm_log_path p tran s)
  unfolding pass sql_update_need_local_conflict sql_exec call
  pass-Safely p tran s v e = elim (Bool-cases tran.need_global_conflct) [
    | inl far ↦ rw far (judge_global_conflict-Safely tran.txid _ (Owns-pass p tran v e))
    | inr near ↦ rw near (cache_rw_set-Safely p _ tran (Owns-pass p tran v e) e)
  ]

  refuse-Safely :
      (p : ℕ) (tran : Transaction) (s : Dbs)
      → IsValid s
      → s.heap p ≡ some tran
      → s.txid_trans tran.txid ≡ some p
      → Safely IsValid (refuse hash dbtm_log_path p tran s)
  unfolding refuse send
  refuse-Safely p tran s v e held =
      Safely->>= (λ s'. IsValid s' × (s'.heap p ≡ some tran)) IsValid
        (ret_result k_tran_fail tran.txid s) _
        (ret_result-keeps k_tran_fail tran.txid p s tran v e held)
        λ s' _ (v', e'). rw (load-eq-ok p s' e') (elim (Bool-cases tran.need_global_conflct) [
          | inl far ↦ rw far (
              Safely->>= Anything IsValid (deref s'.gtm_conn) _ (deref-Safely s'.gtm_conn)
                λ conn _ _. v')
          | inr near ↦ rw near v'
        ])

  decided-Safely :
      (conflict : Bool) (p : ℕ) (tran : Transaction) (s : Dbs)
      → IsValid s
      → s.heap p ≡ some tran
      → s.txid_trans tran.txid ≡ some p
      → Safely IsValid (
          if conflict then refuse hash dbtm_log_path p tran s else pass hash dbtm_log_path p tran s)
  decided-Safely true p tran s v e held = refuse-Safely p tran s v e held
  decided-Safely false p tran s v e held = pass-Safely p tran s v e

  judge_local_conflict-Safely :
      (p : ℕ) (s : Dbs)
      → IsValid s
      → IsReady s (judge_local_conflict_task p)
      → Safely IsValid (judge_local_conflict hash dbtm_log_path p s)
  unfolding judge_local_conflict write_to_disk_and_sql call sql_insert sql_exec
  judge_local_conflict-Safely p s v (tran, e, held) =
      let logged = write_to_disk_and_sql hash dbtm_log_path tran s in
      rw (load-eq-ok p s e) (
        Safely->>= Anything IsValid (check hash dbtm_log_path tran s.wcheck) _
          (check-Safely tran s.wcheck)
          λ (conflict, m) _ _.
            let checked : Dbs = record logged { wcheck = m } in
            decided-Safely conflict p tran checked v e held)

  solve-Safely :
      (msg : DbtmMsg) (s : Dbs) → IsValid s → Safely IsValid (solve hash dbtm_log_path msg s)
  unfolding solve sql_update_need_global_conflict sql_delete sql_exec call
  solve-Safely msg s v = elim (Bool-cases (msg.cmd == k_judge_conflit)) [
    | inr other ↦ rw other v
    | inl judged ↦ elim (Bool-cases msg.is_global_conflict) [
      | inl conflict ↦
          rw (judged, conflict)
            (ret_result-Safely k_tran_fail msg.txid (sql_delete hash dbtm_log_path msg.txid s) v)
      | inr fine ↦
          rw (judged, fine)
            (elim (Option-cases (s.dbtm_table msg.txid)) [
              | inl missing ↦ rw missing tt
              | inr (p, e) ↦
                  let (tran, e', own) = v.checked msg.txid p e in
                  rw e (
                    Safely->>= IsValid IsValid (cache_rw_set hash dbtm_log_path p s) _
                      (cache_rw_set-Safely p s tran v e') λ s' _ v'. v')
            ])
    ]
  ]

  -- In a state in which the entries of both tables lead to living transactions of their ids, none
  -- of them in both tables: a task uses no transaction that has been deleted, provided that its
  -- pointer is the one that the table of unchecked transactions holds, and that the message of
  -- `solve` is still there; and the state that it leaves is of that kind again.
  pub run-Safely :
      (task : Task) (msg : DbtmMsg) (s : Dbs)
      → IsValid s
      → IsReady s task
      → Safely IsValid (run hash dbtm_log_path task (some msg) s)
  unfolding run
  run-Safely (get_lsn_task t) msg s v ready = get_lsn-Safely t s v
  run-Safely (judge_local_conflict_task p) msg s v ready = judge_local_conflict-Safely p s v ready
  run-Safely solve_task msg s v ready = solve-Safely msg s v
