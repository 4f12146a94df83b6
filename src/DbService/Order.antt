-- ===== src/DbService/Order.antt =====
-- The messages about one transaction: its data, its commit and its log sequence number.
use grit.Common.{
  if◌then◌else◌, ==_refl, Bool-cases, ◌>>=◌, Returns, slt, ℕ, ◌≡◌, refl, ◌∙◌, inl, inr, Bool, true,
  false, not, none, some, List, [], ◌∷◌, ◌++◌, map, ok,
}
use grit.Net.{Conn, RootMsg, db_service_msg, dbtm_msg, create_db_service_msg, create_dbtm_msg}
use grit.Net.HeaderCmd.{k_data, k_commit, k_lsn}
use grit.DbService.{
  Data, Transaction, Dbs, judge_local_conflict_task, store, enqueue, read_data, read_all,
}
use grit.DbService.Dbtm.{data_vec}
use grit.DbService.Sound.{load-eq-ok}
use grit.DbService.Handler.{on_commit, on_lsn, on_message}

-- The messages of an entity service, and the answer to the request for a number.
abbrev pub data_msg : ℕ → List Data → List Data → RootMsg
data_msg t reads writes =
    db_service_msg
      (create_db_service_msg k_data t false (some (data_vec reads)) (some (data_vec writes)))

abbrev pub commit_msg : ℕ → Bool → RootMsg
commit_msg t need = db_service_msg (create_db_service_msg k_commit t need none none)

abbrev pub lsn_msg : ℕ → ℕ → RootMsg
lsn_msg t lsn = dbtm_msg (create_dbtm_msg k_lsn t false lsn)

-- What a message carries of the data: all but the label.
abbrev pub unlabelled : List Data → List Data
unlabelled = map {A = Data} (λ d. record d { label = [] })

-- A set that is written into a message is read back from it, with empty labels.
pub read_all-data_vec : (ds : List Data) → read_all (data_vec ds) ≡ ok (unlabelled ds)
unfolding read_all read_data data_vec
read_all-data_vec [] = refl
read_all-data_vec (d ∷ ds) = rw (read_all-data_vec ds) refl

on_commit_lem :
    (es : Conn) (t p : ℕ) (need : Bool) (tran : Transaction) (s : Dbs)
    → s.txid_trans t ≡ some p
    → s.heap p ≡ some tran
    → on_message es (commit_msg t need) s ≡ (
        let tran' : Transaction = record tran { need_global_conflct = need } in
        ok (
          if slt 0 tran.lsn
          then enqueue (judge_local_conflict_task p) (store p tran' s)
          else store p (record tran' { already_commit = true }) s))
unfolding on_message on_commit
on_commit_lem es t p need tran s e e' = rw (e, load-eq-ok p s e') refl

on_lsn_lem :
    (conn : Conn) (t p l : ℕ) (tran : Transaction) (s : Dbs)
    → s.txid_trans t ≡ some p
    → s.heap p ≡ some tran
    → on_message conn (lsn_msg t l) s ≡ (
        let s' = store p (record tran { lsn = l }) s in
        ok (if tran.already_commit then enqueue (judge_local_conflict_task p) s' else s'))
unfolding on_message on_lsn
on_lsn_lem conn t p l tran s e e' = rw (e, load-eq-ok p s e') refl

heap-store : (p : ℕ) (tran : Transaction) (s : Dbs) → (store p tran s).heap p ≡ some tran
unfolding store
heap-store p tran s = rw (==_refl p) refl

-- For a transaction that has asked for its number and has not been committed: after a commit and
-- then the number, whatever it is, one more task is queued, to judge it. After the number and then
-- the commit that is so only if the number is positive, as a signed integer. The transaction has
-- the same number and the same need of a verdict in both orders.
pub on_message-commit-lsn :
    (conn es : Conn) (t p l : ℕ) (need : Bool) (tran : Transaction) (s : Dbs)
    → s.txid_trans t ≡ some p
    → s.heap p ≡ some (record tran { lsn = 0; already_commit = false })
    → let known : Bool → Transaction =
        λ early. record tran { need_global_conflct = need; lsn = l; already_commit = early } in
      Returns (on_message es (commit_msg t need) s >>= on_message conn (lsn_msg t l)) (λ s'.
        (s'.tasks ≡ s.tasks ++ judge_local_conflict_task p ∷ []) × (s'.heap p ≡ some (known true)))
      × Returns (on_message conn (lsn_msg t l) s >>= on_message es (commit_msg t need)) (λ s'.
        (s'.tasks ≡ (if slt 0 l then s.tasks ++ judge_local_conflict_task p ∷ [] else s.tasks))
        × (s'.heap p ≡ some (known (not (slt 0 l)))))
unfolding store enqueue
on_message-commit-lsn conn es t p l need tran s e e' =
    let waits : Transaction = record tran {
      need_global_conflct = need;
      lsn = 0;
      already_commit = true;
    } in
    let numbered : Transaction = record tran { lsn = l; already_commit = false } in
    (
      (
        enqueue (judge_local_conflict_task p)
            (store p (record waits { lsn = l }) (store p waits s)),
        rw (on_commit_lem es t p need (record tran { lsn = 0; already_commit = false }) s e e')
            (on_lsn_lem conn t p l waits (store p waits s) e (heap-store p waits s)),
        (refl, rw (==_refl p) refl),
      ),
      elim (Bool-cases (slt 0 l)) [
        | inl known ↦ (
          enqueue (judge_local_conflict_task p)
              (store p (record numbered { need_global_conflct = need }) (store p numbered s)),
          rw (on_lsn_lem conn t p l (record tran { lsn = 0; already_commit = false }) s e e') (
              on_commit_lem es t p need numbered (store p numbered s) e (heap-store p numbered s)
              ∙ rw known refl),
          (rw known refl, rw (known, ==_refl p) refl),
        )
        | inr zero_or_less ↦ (
          store p (record numbered { need_global_conflct = need; already_commit = true })
              (store p numbered s),
          rw (on_lsn_lem conn t p l (record tran { lsn = 0; already_commit = false }) s e e') (
              on_commit_lem es t p need numbered (store p numbered s) e (heap-store p numbered s)
              ∙ rw zero_or_less refl),
          (rw zero_or_less refl, rw (zero_or_less, ==_refl p) refl),
        )
      ],
    )
