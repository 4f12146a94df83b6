-- ===== src/DbService.antt =====
-- transaction/dbservice/dbservice.h and dbservice.cc: the database service, with what it shares
-- with its Dbtm: transactions on the heap, and the tables that lead to them. `dbtm_table` is
-- Dbtm::table_, the transactions that passed the local check. A map from which `[]` makes a null
-- pointer is not told apart from one without the key: the pointer is read at once, or erased again.
mod Tests
mod RunTests
pub mod Dbtm
pub mod Handler
pub mod Owns
pub mod Sound
pub mod Tasks
pub mod Refusal
pub mod Verdict
pub mod Keyless
pub mod Order
pub mod Collect
pub mod Files
pub mod Runs
pub mod Fit
pub mod Frames
pub mod Incoming
pub mod Safety
use grit.Common.{
  Outcome, ◌>>=◌, deref, or_fault, Table, insert, erase, minus_one, Text, ℕ, ◌+◌, Bool, false,
  Option, none, some, List, [], ◌∷◌, ◌++◌, ok, dangling,
}
use grit.Net.{Conn, Sent, RootMsg, es_msg, create_es_msg, DbServiceMsg}
use grit.Net
use grit.Hash.{Mhash}

-- `struct Data`.
pub record Data : Type 0 where
  pub key : Text
  pub label : Text
  pub attribute : Text
  pub value : Text

-- `struct transaction`. `lsn` is an `int`: -1 before it was asked for, 0 until it is known.
pub record Transaction : Type 0 where
  pub txid : ℕ
  pub read_set : List Data
  pub write_set : List Data
  pub need_global_conflct : Bool
  pub lsn : ℕ
  pub already_commit : Bool

-- What the threads of the pool have been asked to do. The message of `solve` is a pointer into the
-- buffer of the handler that received it.
pub data Task : Type 0 where
  get_lsn_task : ℕ → Task
  judge_local_conflict_task : ℕ → Task
  solve_task : Task

-- What the service asks of the local database and the file system, with no use of the answers.
pub data Call : Type 0 where
  exe_sql : Text → Call
  write_file : Text → RootMsg → Call
  remove_file : Text → Call

-- A pointer to a transaction is its address in `heap`, and `next` is the next address.
pub record Dbs : Type 0 where
  pub table : Table Conn
  pub txid_trans : Table ℕ
  pub dbtm_table : Table ℕ
  pub heap : Table Transaction
  pub next : ℕ
  pub wcheck : Mhash
  pub dbtl_conn : Option Conn
  pub gtm_conn : Option Conn
  pub outbox : List Sent
  pub calls : List Call
  pub tasks : List Task

-- new transaction(), with the id that is set next.
unfoldable pub transaction : ℕ → Transaction
transaction txid = record {
  txid = txid;
  read_set = [];
  write_set = [];
  need_global_conflct = false;
  lsn = minus_one;
  already_commit = false;
}

-- *p
unfoldable pub load : ℕ → Dbs → Outcome Transaction
load p s = or_fault dangling (s.heap p)

unfoldable pub store : ℕ → Transaction → Dbs → Dbs
store p tran s = record s { heap = insert s.heap p tran }

unfoldable pub send : Conn → RootMsg → Dbs → Dbs
send conn msg s = record s { outbox = s.outbox ++ (conn, msg) ∷ [] }

unfoldable pub enqueue : Task → Dbs → Dbs
enqueue task s = record s { tasks = s.tasks ++ task ∷ [] }

-- The loop over the elements of a set in a message.
unfoldable pub read_data : Net.Data → Outcome Data
read_data d = do
  key ← deref d.key
  attribute ← deref d.attribute
  value ← deref d.value
  ok (record { key = key; label = []; attribute = attribute; value = value })

unfoldable pub read_all : List Net.Data → Outcome (List Data)
unfolding read_data
read_all [] = ok []
read_all (d ∷ ds) = do x ← read_data d; xs ← read_all ds; ok (x ∷ xs)

-- The transaction of an id, which is created when it is not there.
unfoldable pub find_or_new : ℕ → Dbs → ℕ × Dbs
unfolding transaction
find_or_new txid s = elim (s.txid_trans txid) [
  | some p ↦ (p, s)
  | none ↦ (
    s.next,
    record s {
      txid_trans = insert s.txid_trans txid s.next;
      heap = insert s.heap s.next (transaction txid);
      next = s.next + 1;
    },
  )
]

unfoldable pub get_read_write_set : Conn → DbServiceMsg → Dbs → Outcome Dbs
unfolding find_or_new load store read_all
get_read_write_set conn msg s = do
  let (p, s') = find_or_new msg.txid s
  tran ← load p s'
  read_set ← deref msg.read_set
  reads ← read_all read_set
  write_set ← deref msg.write_set
  writes ← read_all write_set
  ok (
      store p
        (record tran { read_set = tran.read_set ++ reads; write_set = tran.write_set ++ writes })
        (record s' { table = insert s'.table tran.txid conn }))

-- `delete tran` on the pointer that Dbtm::table_ holds, or on a null pointer.
unfoldable pub delete : Option ℕ → Table Transaction → Outcome (Table Transaction)
delete none heap = ok heap
delete (some p) heap = do tran ← or_fault dangling (heap p); ok (erase heap p)

unfoldable pub ret_result : ℕ → ℕ → Dbs → Outcome Dbs
unfolding send delete
ret_result status txid s = do
  conn ← deref (s.table txid)
  let s' = send conn (es_msg (create_es_msg status txid false 0 none none none)) s
  heap ← delete (s'.dbtm_table txid) s'.heap
  ok (record s' { dbtm_table = erase s'.dbtm_table txid; heap = heap })
