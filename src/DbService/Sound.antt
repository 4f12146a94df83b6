-- ===== src/DbService/Sound.antt =====
-- The handler and the tasks never use a transaction that has been deleted.
use grit.Common.{
  ◌==◌, ==_refl, Bool-cases, Option-cases, Outcome, ◌>>=◌, deref, Safely, Safely->>=, Table,
  minus_one, slt, ℕ, ◌≡◌, refl, inl, inr, ◌||◌, Option, none, some, List, [], ◌∷◌, ok,
}
use grit.Net.{
  Conn, RootMsg, empty_msg, gtm_msg, app_msg, dbtl_msg, dbtl_ack_msg, es_msg, db_msg,
  log_player_msg, db_service_msg, dbtm_msg, DbServiceMsg, DbtmMsg,
}
use grit.Net
use grit.Net.HeaderCmd.{k_data, k_commit, k_judge_conflit, k_lsn, k_tran_success, k_tran_fail}
use grit.DbService.{
  Transaction, transaction, Dbs, load, store, enqueue, send, find_or_new, get_read_write_set,
  read_data, read_all, delete, ret_result,
}
use grit.Hash.Safe.{Anything}
use grit.DbService.Owns.{Owns, Owns-store, Owns-new, Owns-delete, Owns-erase}
use grit.DbService.Handler.{on_data, on_commit, on_lsn, on_message}

abbrev pub IsValid : Dbs → Type 0
IsValid s = Owns s.txid_trans s.dbtm_table s.heap s.next

pub deref-Safely {ℓ} : {A : Type ℓ} (o : Option A) → Safely Anything (deref o)
deref-Safely none = tt
deref-Safely (some a) = tt

pub load-eq-ok : (p : ℕ) (s : Dbs) {tran : Transaction} → s.heap p ≡ some tran → load p s ≡ ok tran
unfolding load
load-eq-ok p s e = rw e refl

-- What follows a look-up in a table whose entries point to transactions.
pub with_tran :
    (table : Table ℕ) (t : ℕ) (s : Dbs) (P : Dbs → Type 0) (f : ℕ → Transaction → Outcome Dbs)
    → ((q : ℕ) → table t ≡ some q → (tran : Transaction) × (s.heap q ≡ some tran) × (tran.txid ≡ t))
    → ((p : ℕ) (tran : Transaction)
        → table t ≡ some p
        → s.heap p ≡ some tran
        → tran.txid ≡ t
        → Safely P (f p tran))
    → Safely P (deref (table t) >>= λ p. load p s >>= f p)
with_tran table t s P f owned k = elim (Option-cases (table t)) [
  | inl missing ↦ rw missing tt
  | inr (p, e) ↦ let (tran, e', own) = owned p e in rw (e, load-eq-ok p s e') (k p tran e e' own)
]

pub read_all-Safely : (ds : List Net.Data) → Safely Anything (read_all ds)
unfolding read_all read_data
read_all-Safely [] = tt
read_all-Safely (d ∷ ds) =
    Safely->>= Anything Anything (read_data d) _
      (Safely->>= Anything Anything (deref d.key) _ (deref-Safely d.key) λ k _ _.
        Safely->>= Anything Anything (deref d.attribute) _ (deref-Safely d.attribute) λ a _ _.
          Safely->>= Anything Anything (deref d.value) _ (deref-Safely d.value) λ v _ _. tt)
      λ x _ _. Safely->>= Anything Anything (read_all ds) _ (read_all-Safely ds) λ xs _ _. tt

pub record Found (t p : ℕ) (s : Dbs) : Type 0 where
  pub valid : IsValid s
  pub tran : Transaction
  pub here : s.heap p ≡ some tran
  pub named : tran.txid ≡ t

pub find_or_new-Found :
    (t : ℕ) (s : Dbs) → IsValid s → Found t (find_or_new t s).0 (find_or_new t s).1
unfolding find_or_new transaction
find_or_new-Found t s v = elim (Option-cases (s.txid_trans t)) [
  | inl missing ↦
      rw (find_or_new, missing)
        (record {
          valid = Owns-new t v;
          tran = transaction t;
          here = rw (==_refl s.next) refl;
          named = refl;
        })
  | inr (p, e) ↦
      let (tran, e', own) = v.unchecked t p e in
      rw (find_or_new, e) (record { valid = v; tran = tran; here = e'; named = own })
]

pub get_read_write_set-Safely :
    (conn : Conn) (msg : DbServiceMsg) (s : Dbs)
    → IsValid s
    → Safely IsValid (get_read_write_set conn msg s)
unfolding get_read_write_set store
get_read_write_set-Safely conn msg s v =
    let f = find_or_new-Found msg.txid s v in
    let s' = (find_or_new msg.txid s).1 in
    let p = (find_or_new msg.txid s).0 in
    rw (load-eq-ok p s' f.here) (
      Safely->>= Anything IsValid (deref msg.read_set) _ (deref-Safely msg.read_set) λ rs _ _.
        Safely->>= Anything IsValid (read_all rs) _ (read_all-Safely rs) λ reads _ _.
          Safely->>= Anything IsValid (deref msg.write_set) _ (deref-Safely msg.write_set) λ ws _ _.
            Safely->>= Anything IsValid (read_all ws) _ (read_all-Safely ws)
              λ writes _ _. Owns-store p f.tran _ f.valid f.here refl)

on_data-Safely :
    (conn : Conn) (msg : DbServiceMsg) (s : Dbs) → IsValid s → Safely IsValid (on_data conn msg s)
unfolding on_data store enqueue
on_data-Safely conn msg s v =
    Safely->>= IsValid IsValid (get_read_write_set conn msg s) _
      (get_read_write_set-Safely conn msg s v)
      λ s' _ v'.
        with_tran s'.txid_trans msg.txid s' IsValid _ (v'.unchecked msg.txid) λ p tran e e' own.
          elim (Bool-cases (tran.lsn == minus_one)) [
            | inl first ↦ rw first (Owns-store p tran _ v' e' refl)
            | inr again ↦ rw again v'
          ]

on_commit-Safely : (msg : DbServiceMsg) (s : Dbs) → IsValid s → Safely IsValid (on_commit msg s)
unfolding on_commit store enqueue
on_commit-Safely msg s v =
    with_tran s.txid_trans msg.txid s IsValid _ (v.unchecked msg.txid) λ p tran e e' own.
      elim (Bool-cases (slt 0 tran.lsn)) [
        | inl known ↦ rw known (Owns-store p tran _ v e' refl)
        | inr not_yet ↦ rw not_yet (Owns-store p tran _ v e' refl)
      ]

on_lsn-Safely : (msg : DbtmMsg) (s : Dbs) → IsValid s → Safely IsValid (on_lsn msg s)
unfolding on_lsn store enqueue
on_lsn-Safely msg s v =
    with_tran s.txid_trans msg.txid s IsValid _ (v.unchecked msg.txid) λ p tran e e' own.
      elim (Bool-cases tran.already_commit) [
        | inl waits ↦ rw waits (Owns-store p tran _ v e' refl)
        | inr not_yet ↦ rw not_yet (Owns-store p tran _ v e' refl)
      ]

-- The answer to the entity service deletes the transaction if it has passed its check.
pub ret_result-Safely :
    (status t : ℕ) (s : Dbs) → IsValid s → Safely IsValid (ret_result status t s)
unfolding ret_result send delete
ret_result-Safely status t s v =
    Safely->>= Anything IsValid (deref (s.table t)) _ (deref-Safely (s.table t)) λ conn _ _.
      elim (Option-cases (s.dbtm_table t)) [
        | inl missing ↦ rw missing (Owns-erase t v)
        | inr (p, e) ↦ let (tran, e', own) = v.checked t p e in rw (e, e') (Owns-delete t p v e)
      ]

-- In a state in which the entries of both tables lead to living transactions of their ids, none of
-- them in both tables: whatever message arrives, the handler uses no transaction that has been
-- deleted, and the state that it leaves is of that kind again.
pub on_message-Safely :
    (conn : Conn) (msg : RootMsg) (s : Dbs) → IsValid s → Safely IsValid (on_message conn msg s)
unfolding on_message enqueue
on_message-Safely conn (db_service_msg msg) s v = elim (Bool-cases (msg.cmd == k_data)) [
  | inl a ↦ rw a (on_data-Safely conn msg s v)
  | inr a ↦ elim (Bool-cases (msg.cmd == k_commit)) [
    | inl b ↦ rw (a, b) (on_commit-Safely msg s v)
    | inr b ↦ rw (a, b) v
  ]
]
on_message-Safely conn (dbtm_msg msg) s v = elim (Bool-cases (msg.cmd == k_judge_conflit)) [
  | inl a ↦ rw a v
  | inr a ↦ elim (Bool-cases (msg.cmd == k_lsn)) [
    | inl b ↦ rw (a, b) (on_lsn-Safely msg s v)
    | inr b ↦ elim (Bool-cases (msg.cmd == k_tran_success || msg.cmd == k_tran_fail)) [
      | inl c ↦ rw (a, b, c) (ret_result-Safely msg.cmd msg.txid s v)
      | inr c ↦ rw (a, b, c) v
    ]
  ]
]
on_message-Safely conn empty_msg s v = v
on_message-Safely conn (gtm_msg m) s v = v
on_message-Safely conn (app_msg m) s v = v
on_message-Safely conn (dbtl_msg m) s v = v
on_message-Safely conn (dbtl_ack_msg m) s v = v
on_message-Safely conn (es_msg m) s v = v
on_message-Safely conn (db_msg m) s v = v
on_message-Safely conn (log_player_msg m) s v = v
