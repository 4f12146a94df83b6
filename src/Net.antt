-- ===== src/Net.antt =====
-- flatbuffer/net_generated.h (made from flatbuffer/net.fbs) and base/headerCmd.h: the messages that
-- the processes exchange. A string or a vector that was not set reads as a null pointer, here
-- `none`; a number that was not set reads as 0. Writing and reading a buffer is the work of the
-- library flatbuffers: a message arrives as it was built.
pub mod HeaderCmd
pub mod Wire
use grit.Common.{◌==◌, Text, ℕ, Bool, not, Option, List}

pub record GtmMsg : Type 0 where
  pub cmd : ℕ
  pub txid : ℕ
  pub is_local_conflict : Bool
  pub trans_type : Option Text

pub record IpAndPort : Type 0 where
  pub ip : Option Text
  pub port : ℕ

pub record AppMsg : Type 0 where
  pub cmd : ℕ
  pub txid : ℕ
  pub list : Option (List IpAndPort)

pub record EsMsg : Type 0 where
  pub cmd : ℕ
  pub txid : ℕ
  pub need_global_conflict : Bool
  pub type : ℕ
  pub key : Option Text
  pub attr : Option Text
  pub val : Option Text

pub record Data : Type 0 where
  pub key : Option Text
  pub attribute : Option Text
  pub value : Option Text

pub record DbMsg : Type 0 where
  pub txid : ℕ
  pub write_set : Option (List Data)

pub record DbServiceMsg : Type 0 where
  pub cmd : ℕ
  pub txid : ℕ
  pub need_global_conflict : Bool
  pub read_set : Option (List Data)
  pub write_set : Option (List Data)

-- `items` is the field `data`.
pub record DbtlMsg : Type 0 where
  pub cmd : ℕ
  pub txid : ℕ
  pub items : Option (List Data)

pub record DbtmMsg : Type 0 where
  pub cmd : ℕ
  pub txid : ℕ
  pub is_global_conflict : Bool
  pub lsn : ℕ

pub record DbtlAckMsg : Type 0 where
  pub lsn : ℕ
  pub txid : ℕ

pub record LogPlayerMsg : Type 0 where
  pub cmd : ℕ
  pub txid : ℕ
  pub id : ℕ

-- The union `Msg` in the table `RootMsg`.
pub data RootMsg : Type 0 where
  empty_msg : RootMsg
  gtm_msg : GtmMsg → RootMsg
  app_msg : AppMsg → RootMsg
  db_service_msg : DbServiceMsg → RootMsg
  dbtl_msg : DbtlMsg → RootMsg
  dbtl_ack_msg : DbtlAckMsg → RootMsg
  es_msg : EsMsg → RootMsg
  dbtm_msg : DbtmMsg → RootMsg
  db_msg : DbMsg → RootMsg
  log_player_msg : LogPlayerMsg → RootMsg

-- The functions that build a message, in the order of their parameters. Where a call leaves
-- parameters out, the model writes their defaults: 0, false and null.
abbrev pub create_gtm_msg : ℕ → ℕ → Bool → Option Text → GtmMsg
create_gtm_msg cmd txid conflict trans_type = record {
  cmd = cmd;
  txid = txid;
  is_local_conflict = conflict;
  trans_type = trans_type;
}

abbrev pub create_ip_and_port : Option Text → ℕ → IpAndPort
create_ip_and_port ip port = record { ip = ip; port = port }

abbrev pub create_app_msg : ℕ → ℕ → Option (List IpAndPort) → AppMsg
create_app_msg cmd txid list = record { cmd = cmd; txid = txid; list = list }

abbrev pub create_es_msg : ℕ → ℕ → Bool → ℕ → Option Text → Option Text → Option Text → EsMsg
create_es_msg cmd txid need type key attr val = record {
  cmd = cmd;
  txid = txid;
  need_global_conflict = need;
  type = type;
  key = key;
  attr = attr;
  val = val;
}

abbrev pub create_data : Option Text → Option Text → Option Text → Data
create_data key attribute value = record { key = key; attribute = attribute; value = value }

abbrev pub create_db_msg : ℕ → Option (List Data) → DbMsg
create_db_msg txid write_set = record { txid = txid; write_set = write_set }

abbrev pub create_db_service_msg :
    ℕ → ℕ → Bool → Option (List Data) → Option (List Data) → DbServiceMsg
create_db_service_msg cmd txid need read_set write_set = record {
  cmd = cmd;
  txid = txid;
  need_global_conflict = need;
  read_set = read_set;
  write_set = write_set;
}

abbrev pub create_dbtl_msg : ℕ → ℕ → Option (List Data) → DbtlMsg
create_dbtl_msg cmd txid items = record { cmd = cmd; txid = txid; items = items }

abbrev pub create_dbtm_msg : ℕ → ℕ → Bool → ℕ → DbtmMsg
create_dbtm_msg cmd txid conflict lsn = record {
  cmd = cmd;
  txid = txid;
  is_global_conflict = conflict;
  lsn = lsn;
}

abbrev pub create_dbtl_ack_msg : ℕ → ℕ → DbtlAckMsg
create_dbtl_ack_msg lsn txid = record { lsn = lsn; txid = txid }

abbrev pub create_log_player_msg : ℕ → ℕ → ℕ → LogPlayerMsg
create_log_player_msg cmd txid id = record { cmd = cmd; txid = txid; id = id }

-- An `int` that is passed where a `bool` is wanted.
abbrev pub to_bool : ℕ → Bool
to_bool n = not (n == 0)

-- A connection, and what was handed to its `send`.
abbrev pub Conn : Type 0
Conn = ℕ

abbrev pub Sent : Type 0
Sent = Conn × RootMsg
