-- ===== src/ConfigManager/Tests.antt =====
-- The settings of config/config.ini, and the theorem at a concrete file.
use grit.Common.{
  if◌then◌else◌, Text, codes, same_text, read_digits, stoi, ℕ, ◌≡◌, refl, Bool, true, false, Option,
  none, some, List, [], ◌∷◌, ok, fault, bad_path,
}
use grit.ConfigManager.{
  Config, get_string, get_int, get_bool, set_or_default_s, set_or_default_i, set_or_default_b, init,
}

-- Before `init`: the numbers and the flag are whatever is in memory.
unset : Config
unset = record {
  log_dir = [];
  gtm_listen_address = [];
  gtm_address = [];
  gtm_port = 9;
  gtm_threads = 9;
  gtm_transactions_dir = [];
  dbs_listen_address = [];
  dbs_address = [];
  dbs_port = 9;
  dbs_threads = 9;
  db_address = [];
  db_port = 9;
  db_name = [];
  db_passwd = [];
  dbtm_thread_num = 9;
  dbtm_rocks_db_path = [];
  dbtm_user = [];
  dbtm_passwd = [];
  dbtm_db_name = [];
  dbtm_db_port = 9;
  dbtm_log_path = [];
  dbtl_listen_address = [];
  dbtl_address = [];
  dbtl_port = 9;
  dbtl_use_rocks_db = false;
  es_listen_address = [];
  es_port = 9;
  lp_max_retry_time = 9;
}

look_up : List (Text × Text) → Text → Option Text
unfolding same_text
look_up [] path = none
look_up ((p, value) ∷ entries) path =
    let rest = look_up entries path in if same_text p path then some value else rest

number : Text → Option ℕ
unfolding stoi
number text = elim (stoi text) [ ok n ↦ some n | fault e ↦ none ]

flag : Text → Option Bool
unfolding same_text
flag text =
    if same_text text (codes "0")
    then some false
    else if same_text text (codes "1")
    then some true
    else none

-- The part of the file that is read before the address of the database.
shipped : List (Text × Text)
shipped =
    (codes "basis.logDir", codes "/home/gyz/grit/log/")
    ∷ (codes "gtm.listenaddress", codes "0.0.0.0")
    ∷ (codes "gtm.address", codes "127.0.0.1")
    ∷ (codes "gtm.port", codes "7987")
    ∷ (codes "gtm.threads", codes "1")
    ∷ (codes "gtm.transactionsDir", codes "/home/gyz/grit/config/transactions.ini")
    ∷ (codes "dbservice.listenaddress", codes "0.0.0.0")
    ∷ (codes "dbservice.address", codes "127.0.0.1")
    ∷ (codes "dbservice.port", codes "7988")
    ∷ (codes "dbservice.threads", codes "1")
    ∷ (codes "db.address", codes "127.0.0.1")
    ∷ (codes "db.port", codes "7989")
    ∷ (codes "db.dbname", codes "db")
    ∷ (codes "db.dbpasswd", codes "1234")
    ∷ []

-- The file has db.address where the code reads db.dbaddress.
shipped_fails : init (look_up shipped) number flag unset ≡ fault bad_path
unfolding init get_string get_int get_bool set_or_default_s set_or_default_i set_or_default_b
    look_up number flag shipped stoi read_digits same_text unset
shipped_fails = refl
