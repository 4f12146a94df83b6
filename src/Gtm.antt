-- ===== src/Gtm.antt =====
-- transaction/gtm/gtm.h, gtm.cc and gtmmain.cc: the global transaction manager hands out
-- transaction ids, and tells the database services of a transaction whether any of them met a
-- conflict.
mod Tests
pub mod Transactions
pub mod Ballot
pub mod Verdict
pub mod Round
pub mod Runs
pub mod Ids
use grit.Common.{
  ltb, ◌==◌, if◌then◌else◌, length, Outcome, ◌>>=◌, deref, Table, no_entries, insert, erase, to_int,
  incr, decr, Text, same_text, substr, stoi, words, ℕ, ◌+◌, ◌-◌, ◌%◌, ◌^◌, Bool, false, ◌&&◌, ◌||◌,
  some, List, [], ◌∷◌, ◌++◌, map, ok, fault, bad_cast,
}
use grit.Net.{
  GtmMsg, RootMsg, app_msg, dbtm_msg, gtm_msg, create_ip_and_port, create_app_msg, create_dbtm_msg,
  Conn, Sent,
}
use grit.Net.HeaderCmd.{k_get_txid, k_txid, k_judge_conflit}

pub record IpandPort : Type 0 where
  pub ip : Text
  pub port : ℕ

-- `server_num` is an `int`.
pub record TxidInfo : Type 0 where
  pub server_num : ℕ
  pub conn_list : List Conn
  pub is_conflict : Bool

-- `txid` is an atomic `int`. `trans_info` is read by `[]` only, which gives an empty list for a type
-- that is not there. `outbox` holds what was sent, the oldest first.
pub record Gtm : Type 0 where
  pub txid : ℕ
  pub trans_info : Text → List IpandPort
  pub table : Table TxidInfo
  pub outbox : List Sent

-- The singleton before `init`: all members start at zero.
pub gtm : Gtm
gtm = record { txid = 0; trans_info = λ _. []; table = no_entries; outbox = [] }

unfoldable pub send : Conn → RootMsg → Gtm → Gtm
send conn msg g = record g { outbox = g.outbox ++ (conn, msg) ∷ [] }

pub txid_info : ℕ → TxidInfo
txid_info num = record { server_num = to_int num; conn_list = []; is_conflict = false }

unfoldable pub get_txid : Conn → Text → Gtm → Gtm
unfolding send txid_info
get_txid conn trans_type g =
    let list = g.trans_info trans_type in
    let table =
      if ltb 1 (length list) then insert g.table g.txid (txid_info (length list)) else g.table in
    let ip_and_port_vec = map (λ e. create_ip_and_port (some e.ip) e.port) list in
    let msg = app_msg (create_app_msg k_txid g.txid (some ip_and_port_vec)) in
    send conn msg (record g { table = table; txid = incr g.txid })

-- The loop over the connections that have asked.
unfoldable pub answer_all : List Conn → RootMsg → Gtm → Gtm
unfolding send
answer_all [] msg g = g
answer_all (conn ∷ conns) msg g = answer_all conns msg (send conn msg g)

unfoldable pub judge_conflict : Conn → GtmMsg → Gtm → Outcome Gtm
unfolding answer_all
judge_conflict conn msg g = do
  let txid = msg.txid
  info ← deref (g.table txid)
  let info' : TxidInfo = record {
    server_num = decr info.server_num;
    conn_list = info.conn_list ++ conn ∷ [];
    is_conflict = info.is_conflict || msg.is_local_conflict;
  }
  let answer = dbtm_msg (create_dbtm_msg k_judge_conflit txid info'.is_conflict 0)
  let done = answer_all info'.conn_list answer g
  let rest : Gtm = record g { table = insert g.table txid info' }
  ok (if info'.server_num == 0 then record done { table = erase g.table txid } else rest)

-- The loop over the characters of a list of servers, from the index `ed` on, for the transaction
-- type `type`. `st` and `pos` are size_t: `pos` starts at -1.
abbrev pub size_mod : ℕ
size_mod = 2 ^ 64

pub add_server : Text → IpandPort → (Text → List IpandPort) → Text → List IpandPort
add_server type server trans_info t =
    if same_text type t then trans_info t ++ server ∷ [] else trans_info t

pub read_server : Text → ℕ → ℕ → ℕ → Outcome IpandPort
unfolding substr stoi
read_server info st ed pos = do
  ip ← substr info st ((pos + 1 + (size_mod - st)) % size_mod)
  digits ← substr info ((pos + 1) % size_mod) ((ed + (size_mod - pos) + (size_mod - 1)) % size_mod)
  port ← stoi digits
  ok (record { ip = ip; port = port })

pub read_servers :
    Text → Text → Text → ℕ → ℕ → ℕ → (Text → List IpandPort) → Outcome (Text → List IpandPort)
unfolding add_server read_server
read_servers type info [] st ed pos trans_info = ok trans_info
read_servers type info (c ∷ rest) st ed pos trans_info =
    let skip = read_servers type info rest st (ed + 1) (if c == b':' then ed else pos) trans_info in
    let entry = read_server info st ed pos >>= λ server.
    read_servers type info rest (ed + 1) (ed + 1) pos (add_server type server trans_info) in
    if c == b':' then skip else if c == b';' && ltb st ed then entry else skip

-- The loop over the words of the file. At the end of the file `fin >> info` leaves `info` as it was.
pub read_types : List Text → Text → (Text → List IpandPort) → Outcome (Text → List IpandPort)
unfolding read_servers
read_types [] info trans_info = ok trans_info
read_types (type ∷ []) info trans_info = read_servers type info info 0 0 (size_mod - 1) trans_info
read_types (type ∷ info ∷ words) _ trans_info = do
  trans_info' ← read_servers type info info 0 0 (size_mod - 1) trans_info
  read_types words info trans_info'

-- `file` is the contents of the file of transactions.
pub init : Text → Gtm → Outcome Gtm
unfolding read_types words
init file g = do
  trans_info ← read_types (words file) [] g.trans_info
  ok (record g { trans_info = trans_info })

-- gtmmain.cc. A message of another type would be read as a GtmMsg.
unfoldable pub on_message : Conn → RootMsg → Gtm → Outcome Gtm
unfolding get_txid judge_conflict
on_message conn (gtm_msg m) g =
    if m.cmd == k_get_txid
    then (deref m.trans_type >>= λ trans_type. ok (get_txid conn trans_type g))
    else if m.cmd == k_judge_conflit
    then judge_conflict conn m g
    else ok g
on_message conn _ g = fault bad_cast
