-- ===== src/DbService/Tests.antt =====
-- A service at work on small transactions, and its theorems at concrete inputs.
use grit.Common.{
  if◌then◌else◌, ◌>>=◌, Returns, no_entries, insert, slt, Text, codes, ℕ, ◌+◌, ◌≡◌, refl, Bool,
  true, false, not, some, [], ◌∷◌, ◌++◌, ok, fault, null_pointer,
}
use grit.Net.{dbtm_msg, create_dbtm_msg}
use grit.Net.HeaderCmd.{k_tran_success}
use grit.Hash.{mhash}
use grit.DbService.{Data, Transaction, Dbs, judge_local_conflict_task, ret_result, delete}
use grit.DbService.Dbtm.{judge_local_conflict}
use grit.DbService.Order.{commit_msg, lsn_msg, on_message-commit-lsn}
use grit.DbService.Keyless.{PassedFrom, passed_msg, judge_local_conflict-PassedFrom}
use grit.DbService.Handler.{on_commit, on_message}

abbrev pub sum_hash : Text → ℕ
sum_hash [] = 0
sum_hash (c ∷ s) = c + sum_hash s

abbrev pub apple : Data
apple = record { key = codes "apple"; label = []; attribute = codes "n"; value = codes "3" }

-- One transaction with a write, that has its number; another that is not committed.
abbrev buying : Transaction
buying = record {
  txid = 7;
  read_set = [];
  write_set = apple ∷ [];
  need_global_conflct = false;
  lsn = 5;
  already_commit = true;
}

abbrev looking : Transaction
looking = record {
  txid = 8;
  read_set = [];
  write_set = [];
  need_global_conflct = false;
  lsn = 0;
  already_commit = false;
}

abbrev shop : Dbs
shop = record {
  table = insert (insert no_entries 7 1) 8 1;
  txid_trans = insert (insert no_entries 7 0) 8 1;
  dbtm_table = no_entries;
  heap = insert (insert no_entries 0 buying) 1 looking;
  next = 2;
  wcheck = mhash;
  dbtl_conn = some 20;
  gtm_conn = some 30;
  outbox = [];
  calls = [];
  tasks = [];
}

on_message-commit-lsn_example :
    let known : Bool → Transaction =
      λ early. record looking { need_global_conflct = true; lsn = 4; already_commit = early } in
    Returns (on_message 1 (commit_msg 8 true) shop >>= on_message 20 (lsn_msg 8 4)) (λ s'.
      (s'.tasks ≡ shop.tasks ++ judge_local_conflict_task 1 ∷ []) × (s'.heap 1 ≡ some (known true)))
    × Returns (on_message 20 (lsn_msg 8 4) shop >>= on_message 1 (commit_msg 8 true)) (λ s'.
      (s'.tasks ≡ (if slt 0 4 then shop.tasks ++ judge_local_conflict_task 1 ∷ [] else shop.tasks))
      × (s'.heap 1 ≡ some (known (not (slt 0 4)))))
on_message-commit-lsn_example = on_message-commit-lsn 20 1 8 1 4 true looking shop refl refl

-- A commit of an unknown transaction, or a second commit of one that was passed, reads a null pointer.
unknown_commit : on_message 1 (commit_msg 99 true) shop ≡ fault null_pointer
unfolding on_message on_commit
unknown_commit = refl

-- The answer of a transaction that has not been passed leaves it on the heap.
answered :
    (on_message 20 (dbtm_msg (create_dbtm_msg k_tran_success 7 false 0)) shop >>= λ s.
    ok (s.heap 0))
    ≡ ok (some buying)
unfolding on_message ret_result delete
answered = refl

judge_local_conflict-PassedFrom_example :
    Returns
      (judge_local_conflict sum_hash (codes "/log/") 1 shop)
      (PassedFrom 8 1 shop.outbox (passed_msg 8 false 30 20) shop.wcheck shop.heap shop.table)
judge_local_conflict-PassedFrom_example =
    judge_local_conflict-PassedFrom sum_hash (codes "/log/") 8 1 0 false false shop 30 20 refl refl
      refl

-- The state in which the first transaction waits for its verdict.
abbrev waiting_shop : Dbs
waiting_shop = record shop { dbtm_table = insert no_entries 7 0 }
