-- ===== src/ConfigManager.antt =====
-- base/configManager.h and configManager.cc: the settings, read from an ini file. Reading the file
-- and converting a value are the work of boost: `tree` gives the text at a path, and `to_number`
-- and `to_flag` convert a text to an `int` and a `bool`, where that is possible.
mod Tests
pub mod Again
use grit.Common.{
  ◌==◌, if◌then◌else◌, Outcome, ◌>>=◌, or_fault, Text, codes, same_text, ℕ, Bool, Option, [], ok,
  invalid_argument, bad_path,
}

pub record Config : Type 0 where
  pub log_dir : Text
  pub gtm_listen_address : Text
  pub gtm_address : Text
  pub gtm_port : ℕ
  pub gtm_threads : ℕ
  pub gtm_transactions_dir : Text
  pub dbs_listen_address : Text
  pub dbs_address : Text
  pub dbs_port : ℕ
  pub dbs_threads : ℕ
  pub db_address : Text
  pub db_port : ℕ
  pub db_name : Text
  pub db_passwd : Text
  pub dbtm_thread_num : ℕ
  pub dbtm_rocks_db_path : Text
  pub dbtm_user : Text
  pub dbtm_passwd : Text
  pub dbtm_db_name : Text
  pub dbtm_db_port : ℕ
  pub dbtm_log_path : Text
  pub dbtl_listen_address : Text
  pub dbtl_address : Text
  pub dbtl_port : ℕ
  pub dbtl_use_rocks_db : Bool
  pub es_listen_address : Text
  pub es_port : ℕ
  pub lp_max_retry_time : ℕ

module _ (tree : Text → Option Text) (to_number : Text → Option ℕ)
    (to_flag : Text → Option Bool) where
  -- pt.get<std::string>, pt.get<int> and pt.get<bool>, which throw for a path that is not there, and
  -- for a text that they cannot convert.
  unfoldable pub get_string : Text → Outcome Text
  get_string path = or_fault bad_path (tree path)

  unfoldable pub get_int : Text → Outcome ℕ
  unfolding get_string
  get_int path = get_string path >>= λ text. or_fault invalid_argument (to_number text)

  unfoldable pub get_bool : Text → Outcome Bool
  unfolding get_string
  get_bool path = get_string path >>= λ text. or_fault invalid_argument (to_flag text)

  -- SetOrDefaultS, SetOrDefaultI and SetOrDefaultB, for a variable with the value `old`.
  unfoldable pub set_or_default_s : Text → Text → Outcome Text
  unfolding get_string
  set_or_default_s old path =
      get_string path >>= λ value. ok (if same_text value [] then old else value)

  unfoldable pub set_or_default_i : ℕ → Text → Outcome ℕ
  unfolding get_int
  set_or_default_i old path = get_int path >>= λ value. ok (if value == 0 then old else value)

  unfoldable pub set_or_default_b : Bool → Text → Outcome Bool
  unfolding get_bool
  set_or_default_b old path = get_bool path

  unfoldable pub init : Config → Outcome Config
  init c = do
    log_dir ← set_or_default_s c.log_dir (codes "basis.logDir")
    gtm_listen_address ← set_or_default_s c.gtm_listen_address (codes "gtm.listenaddress")
    gtm_address ← set_or_default_s c.gtm_address (codes "gtm.address")
    gtm_port ← set_or_default_i c.gtm_port (codes "gtm.port")
    gtm_threads ← set_or_default_i c.gtm_threads (codes "gtm.threads")
    gtm_transactions_dir ← set_or_default_s c.gtm_transactions_dir (codes "gtm.transactionsDir")
    dbs_listen_address ← set_or_default_s c.dbs_listen_address (codes "dbservice.listenaddress")
    dbs_address ← set_or_default_s c.dbs_address (codes "dbservice.address")
    dbs_port ← set_or_default_i c.dbs_port (codes "dbservice.port")
    dbs_threads ← set_or_default_i c.dbs_threads (codes "dbservice.threads")
    db_address ← set_or_default_s c.db_address (codes "db.dbaddress")
    db_port ← set_or_default_i c.db_port (codes "db.dbport")
    db_name ← set_or_default_s c.db_name (codes "db.dbname")
    db_passwd ← set_or_default_s c.db_passwd (codes "db.dbpasswd")
    dbtm_thread_num ← set_or_default_i c.dbtm_thread_num (codes "dbtm.threadnum")
    dbtm_rocks_db_path ← set_or_default_s c.dbtm_rocks_db_path (codes "dbtm.rocksdbpath")
    dbtm_user ← set_or_default_s c.dbtm_user (codes "dbtm.user")
    dbtm_passwd ← set_or_default_s c.dbtm_passwd (codes "dbtm.passwd")
    dbtm_db_name ← set_or_default_s c.dbtm_db_name (codes "dbtm.dbname")
    dbtm_db_port ← set_or_default_i c.dbtm_db_port (codes "dbtm.dbport")
    dbtm_log_path ← set_or_default_s c.dbtm_log_path (codes "dbtm.logpath")
    dbtl_listen_address ← set_or_default_s c.dbtl_listen_address (codes "dbtl.listenaddress")
    dbtl_address ← set_or_default_s c.dbtl_address (codes "dbtl.address")
    dbtl_port ← set_or_default_i c.dbtl_port (codes "dbtl.port")
    dbtl_use_rocks_db ← set_or_default_b c.dbtl_use_rocks_db (codes "dbtl.userocksdb")
    es_listen_address ← set_or_default_s c.es_listen_address (codes "es.listenaddress")
    es_port ← set_or_default_i c.es_port (codes "es.port")
    lp_max_retry_time ← set_or_default_i c.lp_max_retry_time (codes "logplayer.maxretrytime")
    ok (record {
      log_dir = log_dir;
      gtm_listen_address = gtm_listen_address;
      gtm_address = gtm_address;
      gtm_port = gtm_port;
      gtm_threads = gtm_threads;
      gtm_transactions_dir = gtm_transactions_dir;
      dbs_listen_address = dbs_listen_address;
      dbs_address = dbs_address;
      dbs_port = dbs_port;
      dbs_threads = dbs_threads;
      db_address = db_address;
      db_port = db_port;
      db_name = db_name;
      db_passwd = db_passwd;
      dbtm_thread_num = dbtm_thread_num;
      dbtm_rocks_db_path = dbtm_rocks_db_path;
      dbtm_user = dbtm_user;
      dbtm_passwd = dbtm_passwd;
      dbtm_db_name = dbtm_db_name;
      dbtm_db_port = dbtm_db_port;
      dbtm_log_path = dbtm_log_path;
      dbtl_listen_address = dbtl_listen_address;
      dbtl_address = dbtl_address;
      dbtl_port = dbtl_port;
      dbtl_use_rocks_db = dbtl_use_rocks_db;
      es_listen_address = es_listen_address;
      es_port = es_port;
      lp_max_retry_time = lp_max_retry_time;
    })
