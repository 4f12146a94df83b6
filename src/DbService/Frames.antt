-- ===== src/DbService/Frames.antt =====
-- What a task of the pool leaves as it was: the queue, and the transactions that other tasks are to
-- judge.
use grit.Common.{
  ◌==◌, Bool-cases, Option-cases, eq-cases, eq_true, eq_false, deref, Safely, Safely->>=,
  some-injective, none-ne-some, Table, erase, Text, ℕ, ◌≡◌, refl, sym, ap, subst, ◌∙◌, ◌≢◌, inl,
  inr, some, List,
}
use grit.Net.{DbtmMsg}
use grit.Net.HeaderCmd.{k_judge_conflit, k_tran_fail}
use grit.Hash.Safe.{Anything}
use grit.DbService.{
  Transaction, Dbs, Task, get_lsn_task, judge_local_conflict_task, solve_task, send, delete,
  ret_result,
}
use grit.DbService.Dbtm.{
  call, sql_exec, sql_delete, sql_update_need_local_conflict, sql_update_need_global_conflict,
  sql_insert, write_to_disk_and_sql, get_lsn, judge_global_conflict, send_log, insert_keys, check,
  cache_rw_set, pass, refuse, judge_local_conflict, solve,
}
use grit.DbService.Sound.{IsValid, deref-Safely, load-eq-ok}
use grit.DbService.Tasks.{IsReady, insert_keys-Safely, check-Safely}
use grit.DbService.Handler.{run}

pub record Frame (spared : ℕ → Type 0) (trans : Table ℕ) (heap : Table Transaction)
    (tasks : List Task) (trans' : Table ℕ) (heap' : Table Transaction) (tasks' : List Task)
    : Type 0 where
  pub queue : tasks' ≡ tasks
  pub shrinks : (q : ℕ) (tran : Transaction) → heap' q ≡ some tran → heap q ≡ some tran
  pub keeps :
      (q : ℕ) (tran : Transaction)
      → spared q
      → heap q ≡ some tran
      → trans tran.txid ≡ some q
      → (heap' q ≡ some tran) × (trans' tran.txid ≡ some q)

abbrev Framed : (ℕ → Type 0) → Dbs → Dbs → Type 0
Framed spared s s' = Frame spared s.txid_trans s.heap s.tasks s'.txid_trans s'.heap s'.tasks

-- The pointers that a task leaves alone.
abbrev pub Spared : Task → ℕ → Type 0
Spared (judge_local_conflict_task p) q = q ≢ p
Spared _ q = Unit

unchanged :
    {spared : ℕ → Type 0} {trans : Table ℕ} {heap : Table Transaction} {tasks : List Task}
    → Frame spared trans heap tasks trans heap tasks
unchanged = record {
  queue = refl;
  shrinks = λ q tran e. e;
  keeps = λ q tran spare e held. (e, held);
}

-- A predicate on the parts of the state that a frame is about.
abbrev On : (Table ℕ → Table Transaction → List Task → Type 0) → Dbs → Type 0
On P s = P s.txid_trans s.heap s.tasks

module _ (P : Table ℕ → Table Transaction → List Task → Type 0) where
  get_lsn-keeps : (t : ℕ) (s : Dbs) → On P s → Safely (On P) (get_lsn t s)
  unfolding get_lsn send
  get_lsn-keeps t s v =
      Safely->>= Anything (On P) (deref s.dbtl_conn) _ (deref-Safely s.dbtl_conn) λ conn _ _. v

  judge_global_conflict-keeps :
      (t : ℕ) (s : Dbs) → On P s → Safely (On P) (judge_global_conflict t s)
  unfolding judge_global_conflict send
  judge_global_conflict-keeps t s v =
      Safely->>= Anything (On P) (deref s.gtm_conn) _ (deref-Safely s.gtm_conn) λ conn _ _. v

  send_log-keeps : (tran : Transaction) (s : Dbs) → On P s → Safely (On P) (send_log tran s)
  unfolding send_log send
  send_log-keeps tran s v =
      Safely->>= Anything (On P) (deref s.dbtl_conn) _ (deref-Safely s.dbtl_conn) λ conn _ _. v

  cache_rw_set-keeps :
      (hash : Text → ℕ) (dbtm_log_path : Text) (p : ℕ) (s : Dbs) (tran : Transaction)
      → s.heap p ≡ some tran
      → On P s
      → Safely (On P) (cache_rw_set hash dbtm_log_path p s)
  unfolding cache_rw_set
  cache_rw_set-keeps hash dbtm_log_path p s tran e v = rw (load-eq-ok p s e) (
      Safely->>= Anything (On P) (insert_keys hash dbtm_log_path tran.write_set tran.lsn s.wcheck) _
        (insert_keys-Safely hash dbtm_log_path tran.write_set tran.lsn s.wcheck)
        λ m _ _. send_log-keeps tran (record s { wcheck = m }) v)

-- An answer deletes no transaction that is still to be judged.
pub ret_result-Framed :
    (spared : ℕ → Type 0) (status t : ℕ) (s : Dbs)
    → IsValid s
    → Safely (Framed spared s) (ret_result status t s)
unfolding ret_result send delete
ret_result-Framed spared status t s v =
    Safely->>= Anything (Framed spared s) (deref (s.table t)) _ (deref-Safely (s.table t))
      λ conn _ _. elim (Option-cases (s.dbtm_table t)) [
        | inl missing ↦ rw missing unchanged
        | inr (p, e) ↦
            let (old, e', own) = v.checked t p e in
            rw (e, e')
              (record {
                queue = refl;
                shrinks = λ q tran h. elim (eq-cases p q) [
                  | inl here ↦ absurd (none-ne-some (rw (eq_true here) at h))
                  | inr away ↦ rw (eq_false away) at h
                ];
                keeps = λ q tran spare h held.
                    let away : p ≢ q = λ same.
                      let same_tran : old ≡ tran =
                        some-injective (sym e' ∙ subst (λ x. s.heap x ≡ some tran) (sym same) h) in
                      let same_id : tran.txid ≡ t =
                        ap (λ (x : Transaction). x.txid) (sym same_tran) ∙ own in
                      v.apart t q (subst (λ x. s.txid_trans x ≡ some q) same_id held)
                        (e ∙ ap some same) in
                    (rw (eq_false away) h, held);
              })
      ]

module _ (hash : Text → ℕ) (dbtm_log_path : Text) where
  pass-Framed :
      (p : ℕ) (tran : Transaction) (s : Dbs)
      → s.heap p ≡ some tran
      → s.txid_trans tran.txid ≡ some p
      → Safely (Framed (λ q. q ≢ p) s) (pass hash dbtm_log_path p tran s)
  unfolding pass sql_update_need_local_conflict sql_exec call
  pass-Framed p tran s e held =
      let moved : Frame (λ q. q ≢ p) s.txid_trans s.heap s.tasks (erase s.txid_trans tran.txid)
          s.heap s.tasks =
        record {
          queue = refl;
          shrinks = λ q tran' h. h;
          keeps = λ q tran' spare h held'.
              let other : tran.txid ≢ tran'.txid = λ same.
                spare
                  (some-injective (sym held' ∙ subst (λ x. s.txid_trans x ≡ some p) same held)) in
              (h, rw (eq_false other) held');
        } in
      let P = Frame (λ q. q ≢ p) s.txid_trans s.heap s.tasks in
      elim (Bool-cases tran.need_global_conflct) [
        | inl far ↦ rw far (judge_global_conflict-keeps P tran.txid _ moved)
        | inr near ↦ rw near (cache_rw_set-keeps P hash dbtm_log_path p _ tran e moved)
      ]

  refuse-Framed :
      (p : ℕ) (tran : Transaction) (s : Dbs)
      → IsValid s
      → s.heap p ≡ some tran
      → s.txid_trans tran.txid ≡ some p
      → Safely (Framed (λ q. q ≢ p) s) (refuse hash dbtm_log_path p tran s)
  unfolding refuse send
  refuse-Framed p tran s v e held =
      let P = Framed (λ q. q ≢ p) s in
      let Q = Framed (λ q. Unit) s in
      Safely->>= Q P (ret_result k_tran_fail tran.txid s) _
        (ret_result-Framed (λ q. Unit) k_tran_fail tran.txid s v)
        λ s' _ f.
          let less : P s' = record {
            queue = f.queue;
            shrinks = f.shrinks;
            keeps = λ q t spare h k. f.keeps q t tt h k;
          } in
          rw (load-eq-ok p s' (f.keeps p tran tt e held).0)
            (elim (Bool-cases tran.need_global_conflct) [
              | inl far ↦ rw far (
                  Safely->>= Anything P (deref s'.gtm_conn) _ (deref-Safely s'.gtm_conn)
                    λ conn _ _. less)
              | inr near ↦ rw near less
            ])

  judge_local_conflict-Framed :
      (p : ℕ) (s : Dbs)
      → IsValid s
      → IsReady s (judge_local_conflict_task p)
      → Safely (Framed (λ q. q ≢ p) s) (judge_local_conflict hash dbtm_log_path p s)
  unfolding judge_local_conflict write_to_disk_and_sql call sql_insert sql_exec
  judge_local_conflict-Framed p s v (tran, e, held) =
      let logged = write_to_disk_and_sql hash dbtm_log_path tran s in
      rw (load-eq-ok p s e) (
        Safely->>= Anything (Framed (λ q. q ≢ p) s) (check hash dbtm_log_path tran s.wcheck) _
          (check-Safely hash dbtm_log_path tran s.wcheck)
          λ (conflict, m) _ _.
            let checked : Dbs = record logged { wcheck = m } in
            elim (Bool-cases conflict) [
              | inl c ↦ rw c (refuse-Framed p tran checked v e held)
              | inr c ↦ rw c (pass-Framed p tran checked e held)
            ])

  solve-Framed :
      (spared : ℕ → Type 0) (msg : DbtmMsg) (s : Dbs)
      → IsValid s
      → Safely (Framed spared s) (solve hash dbtm_log_path msg s)
  unfolding solve sql_update_need_global_conflict sql_delete sql_exec call
  solve-Framed spared msg s v = elim (Bool-cases (msg.cmd == k_judge_conflit)) [
    | inr other ↦ rw other unchanged
    | inl judged ↦ elim (Bool-cases msg.is_global_conflict) [
      | inl conflict ↦
          rw (judged, conflict)
            (ret_result-Framed spared k_tran_fail msg.txid
              (sql_delete hash dbtm_log_path msg.txid s) v)
      | inr fine ↦
          rw (judged, fine)
            (elim (Option-cases (s.dbtm_table msg.txid)) [
              | inl missing ↦ rw missing tt
              | inr (p, e) ↦
                  let (tran, e', own) = v.checked msg.txid p e in
                  rw e (
                    Safely->>= (Framed spared s) (Framed spared s)
                      (cache_rw_set hash dbtm_log_path p s) _
                      (cache_rw_set-keeps (Frame spared s.txid_trans s.heap s.tasks) hash
                        dbtm_log_path p s tran e' unchanged)
                      λ s' _ f. f)
            ])
    ]
  ]

  pub run-Framed :
      (task : Task) (msg : DbtmMsg) (s : Dbs)
      → IsValid s
      → IsReady s task
      → Safely
          (λ s'. Frame (Spared task) s.txid_trans s.heap s.tasks s'.txid_trans s'.heap s'.tasks)
          (run hash dbtm_log_path task (some msg) s)
  unfolding run
  run-Framed (get_lsn_task t) msg s v ready =
      get_lsn-keeps (Frame (λ q. Unit) s.txid_trans s.heap s.tasks) t s unchanged
  run-Framed (judge_local_conflict_task p) msg s v ready = judge_local_conflict-Framed p s v ready
  run-Framed solve_task msg s v ready = solve-Framed (λ q. Unit) msg s v
