-- ===== src/System/ChainTests.antt =====
-- A transaction on its way through several processes, at concrete inputs.
use grit.Common.{length, no_entries, insert, Text, codes, ℕ, true, false, none, some, List, [], ◌∷◌}
use grit.Net.{Conn, GtmMsg, create_gtm_msg}
use grit.Net.HeaderCmd.{k_judge_conflit}
use grit.Hash.{mhash}
use grit.TimeWheel.{time_wheel}
use grit.Gtm.{Gtm}
use grit.Gtm
use grit.App.{App}
use grit.App
use grit.Dbtl.{Dbtl}
use grit.DbService.{Dbs}
use grit.DbService.Keyless.{keyless}
use grit.DbService.Handler
use grit.System.Agreement.{Service}

abbrev length_hash : Text → ℕ
length_hash s = length s

abbrev manager : Gtm
manager = record {
  txid = 8;
  trans_info =
      λ t. record { ip = codes "a"; port = 81 } ∷ record { ip = codes "b"; port = 82 } ∷ [];
  table = no_entries;
  outbox = [];
}

abbrev client : App
client = record {
  gtm_conn = some 30;
  txid = 0;
  conn_list = [];
  connecting = [];
  outbox = [];
  shown = [];
}

-- A service with one transaction that waits to be judged, and the same behind its local check.
abbrev service : Dbs
service = record {
  table = insert no_entries 8 1;
  txid_trans = insert no_entries 8 0;
  dbtm_table = no_entries;
  heap = insert no_entries 0 (keyless 8 false 5 true);
  next = 1;
  wcheck = mhash;
  dbtl_conn = some 20;
  gtm_conn = some 30;
  outbox = [];
  calls = [];
  tasks = [];
}

abbrev passed_service : Dbs
passed_service = record service { txid_trans = no_entries; dbtm_table = insert no_entries 8 0 }

abbrev log_store : Dbtl
log_store = record {
  apply_lsn = 4;
  log_table = λ _. [];
  db_conn_vec = 50 ∷ 51 ∷ [];
  answer_table = no_entries;
  retry_table = λ _. [];
  time_wheel = time_wheel 6000 100;
  outbox = [];
  calls = [];
  tasks = [];
}

abbrev two_votes : List (Conn × GtmMsg)
two_votes =
    (1, create_gtm_msg k_judge_conflit 8 false none)
    ∷ (2, create_gtm_msg k_judge_conflit 8 true none)
    ∷ []

abbrev passed_here : Service
passed_here = record { state = passed_service; at = 0; tran = keyless 8 false 5 true }
