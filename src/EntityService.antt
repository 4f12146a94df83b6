-- ===== src/EntityService.antt =====
-- transaction/entity_service: es.h, es.cc and esmain.cc. The entity service turns the commands of
-- an application into read sets and write sets for its database service.
mod Tests
pub mod Forwarding
use grit.Common.{
  ◌==◌, if◌then◌else◌, Outcome, ◌>>=◌, deref, Table, insert, Text, ℕ, false, ◌||◌, Option, none,
  some, List, [], ◌∷◌, ◌++◌, ok, fault, bad_cast,
}
use grit.Net.{
  Conn, Sent, RootMsg, es_msg, app_msg, db_service_msg, EsMsg, DbServiceMsg, create_data,
  create_db_service_msg, create_app_msg,
}
use grit.Net.HeaderCmd.{k_add, k_change, k_delete, k_search, k_commit, k_data}

pub record Es : Type 0 where
  pub table : Table Conn
  pub dbs_conn : Option Conn
  pub outbox : List Sent

unfoldable pub send : Conn → RootMsg → Es → Es
send conn msg s = record s { outbox = s.outbox ++ (conn, msg) ∷ [] }

unfoldable pub on_dbs_connection : Conn → Es → Es
on_dbs_connection conn s = record s { dbs_conn = some conn }

unfoldable pub forward : EsMsg → Es → Outcome Es
unfolding send
forward msg s = do
  conn ← deref s.dbs_conn
  ok (
      send conn
        (db_service_msg
          (create_db_service_msg k_commit msg.txid msg.need_global_conflict none none))
        s)

-- The two branches of `ES::solve`: a write set of one datum, or a read set of a datum with its key.
unfoldable pub dbs_msg : EsMsg → Text → Outcome DbServiceMsg
dbs_msg msg key =
    let write = (do
      attr ← deref msg.attr
      val ← deref msg.val
      ok (
          create_db_service_msg k_data msg.txid false none
            (some (create_data (some key) (some attr) (some val) ∷ [])))) in
    let read = ok (
      create_db_service_msg k_data msg.txid false (some (create_data (some key) none none ∷ []))
        none) in
    if msg.cmd == k_add || msg.cmd == k_delete then write else read

unfoldable pub solve : EsMsg → Es → Outcome Es
unfolding dbs_msg send
solve msg s = do
  key ← deref msg.key
  dbs ← dbs_msg msg key
  conn ← deref s.dbs_conn
  ok (send conn (db_service_msg dbs) s)

-- The result of a transaction, for the application.
unfoldable pub ret_result : ℕ → ℕ → Es → Outcome Es
unfolding send
ret_result status txid s = do
  conn ← deref (s.table txid)
  ok (send conn (app_msg (create_app_msg status txid none)) s)

-- A message of another type would be read as an ESMsg. The two results of a transaction are ignored,
-- so that nothing calls `retResult`.
unfoldable pub on_message : Conn → RootMsg → Es → Outcome Es
unfolding solve forward
on_message conn (es_msg msg) s =
    let s' : Es = record s { table = insert s.table msg.txid conn } in
    if msg.cmd == k_add || msg.cmd == k_delete || msg.cmd == k_change || msg.cmd == k_search
    then solve msg s'
    else if msg.cmd == k_commit
    then forward msg s'
    else ok s'
on_message conn _ s = fault bad_cast
