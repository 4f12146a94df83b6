-- ===== src/System/Tests.antt =====
-- A log store and a database service with one open transaction.
use grit.Common.{no_entries, insert, false, some, []}
use grit.Hash.{mhash}
use grit.TimeWheel.{time_wheel}
use grit.Dbtl.{Dbtl}
use grit.DbService.{Transaction, Dbs}

abbrev open_transaction : Transaction
open_transaction = record {
  txid = 8;
  read_set = [];
  write_set = [];
  need_global_conflct = false;
  lsn = 0;
  already_commit = false;
}

abbrev service : Dbs
service = record {
  table = insert no_entries 8 1;
  txid_trans = insert no_entries 8 0;
  dbtm_table = no_entries;
  heap = insert no_entries 0 open_transaction;
  next = 1;
  wcheck = mhash;
  dbtl_conn = some 20;
  gtm_conn = some 30;
  outbox = [];
  calls = [];
  tasks = [];
}

abbrev log_store : Dbtl
log_store = record {
  apply_lsn = 4;
  log_table = λ _. [];
  db_conn_vec = [];
  answer_table = no_entries;
  retry_table = λ _. [];
  time_wheel = time_wheel 6000 100;
  outbox = [];
  calls = [];
  tasks = [];
}
