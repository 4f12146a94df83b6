-- ===== src/App.antt =====
-- transaction/app: app.h, app.cc and the handler in appmain.cc. The application starts a
-- transaction, sends its commands to the entity services, and commits it. `debug` says that the
-- library flatbuffers checks its assertions: `startTran` makes a string while a table is open,
-- which the library forbids by an assertion and else lets pass.
mod Tests
pub mod Commands
use grit.Common.{
  ◌==◌, if◌then◌else◌, length, get_elem?, drop, Outcome, ◌>>=◌, deref, or_fault, Text, codes,
  same_text, substr, stoi, ℕ, ◌+◌, ◌-◌, Bool, true, false, ◌||◌, Option, none, some, List, [], ◌∷◌,
  ◌++◌, ok, fault, out_of_range, uninitialised, bad_cast, exited,
}
use grit.Net.{
  Conn, Sent, RootMsg, es_msg, app_msg, gtm_msg, EsMsg, IpAndPort, create_es_msg, create_gtm_msg,
}
use grit.Net.HeaderCmd.{
  k_get_txid, k_txid, k_add, k_change, k_delete, k_search, k_commit, k_tran_success, k_tran_fail,
}

-- `txid_` is not set before the answer of the global manager. `connecting` holds the addresses that
-- the application has asked for a connection, and `shown` the results that were reported.
pub record App : Type 0 where
  pub gtm_conn : Option Conn
  pub txid : ℕ
  pub conn_list : List Conn
  pub connecting : List (Text × ℕ)
  pub outbox : List Sent
  pub shown : List (ℕ × Bool)

unfoldable pub send : Conn → RootMsg → App → App
send conn msg s = record s { outbox = s.outbox ++ (conn, msg) ∷ [] }

unfoldable pub on_gtm_connection : Conn → App → App
on_gtm_connection conn s = record s { gtm_conn = some conn }

unfoldable pub on_es_connection : Conn → App → App
on_es_connection conn s = record s { conn_list = s.conn_list ++ conn ∷ [] }

-- The loop over the list of servers. Each connection, once it is up, calls `onESConnection`.
unfoldable pub connect_all : List IpAndPort → App → Outcome App
connect_all [] s = ok s
connect_all (e ∷ es) s = do
  ip ← deref e.ip
  connect_all es (record s { connecting = s.connecting ++ (ip, e.port) ∷ [] })

unfoldable pub connect_to_es : Option (List IpAndPort) → App → Outcome App
unfolding connect_all
connect_to_es list s = do es ← deref list; connect_all es s

-- The answer of the global manager. A message of another type would be read as an AppMsg.
unfoldable pub on_message : RootMsg → App → Outcome App
unfolding connect_to_es
on_message (app_msg msg) s =
    if msg.cmd == k_txid then connect_to_es msg.list (record s { txid = msg.txid }) else ok s
on_message _ s = fault bad_cast

-- How many characters stand before the first space.
unfoldable pub to_space : Text → ℕ
to_space [] = 0
to_space (c ∷ str) = let rest = to_space str in if c == b' ' then 0 else rest + 1

-- The word from `pos1` on, and the position behind the space that ends it.
unfoldable pub word : Text → ℕ → Outcome (Text × ℕ)
unfolding to_space substr
word str pos1 = do
  let pos2 = pos1 + to_space (drop pos1 str)
  w ← substr str pos1 (pos2 - pos1)
  ok (w, pos2 + 1)

-- The command, which stays unset for an unknown word.
unfoldable pub cmd_of : Text → Option ℕ
unfolding same_text
cmd_of type =
    if same_text type (codes "add")
    then some k_add
    else if same_text type (codes "delete")
    then some k_delete
    else if same_text type (codes "Change")
    then some k_change
    else if same_text type (codes "Search")
    then some k_search
    else none

-- The message of a command.
unfoldable pub parse : ℕ → Text → Outcome EsMsg
parse txid str = do
  (type, pos) ← word str 0
  let read = cmd_of type
  (digits, pos₁) ← word str pos
  typ ← stoi digits
  (key, pos₂) ← word str pos₁
  cmd ← or_fault uninitialised read
  let with_value = (do
    (attr, pos₃) ← word str pos₂
    (val, pos₄) ← word str pos₃
    ok (create_es_msg cmd txid false typ (some key) (some attr) (some val)))
  let bare = ok (create_es_msg cmd txid false typ (some key) none none)
  if cmd == k_add || cmd == k_change then with_value else bare

-- connList_.front() on an empty list is an access out of its bounds.
unfoldable pub add : Text → App → Outcome App
unfolding parse send
add str s = do
  msg ← parse s.txid str
  conn ← or_fault out_of_range (get_elem? s.conn_list 0)
  ok (send conn (es_msg msg) s)

-- The loop over the connections.
unfoldable pub send_all : List Conn → RootMsg → App → App
unfolding send
send_all [] msg s = s
send_all (conn ∷ conns) msg s = send_all conns msg (send conn msg s)

unfoldable pub commit : App → App
unfolding send_all
commit s =
    let need = if length s.conn_list == 1 then false else true in
    send_all s.conn_list (es_msg (create_es_msg k_commit s.txid need 0 none none none)) s

unfoldable pub start_tran : Bool → Text → App → Outcome App
unfolding send
start_tran true type s = fault exited
start_tran false type s = do
  conn ← deref s.gtm_conn
  ok (send conn (gtm_msg (create_gtm_msg k_get_txid 0 false (some type))) s)

unfoldable pub show_result : ℕ → ℕ → App → App
show_result status txid s = record s { shown = s.shown ++ (txid, status == k_tran_success) ∷ [] }

-- appmain.cc: the handler of the application's own server.
unfoldable pub on_server_message : RootMsg → App → Outcome App
unfolding show_result
on_server_message (app_msg msg) s = ok (
    if msg.cmd == k_tran_success || msg.cmd == k_tran_fail
    then show_result msg.cmd msg.txid s
    else s)
on_server_message _ s = fault bad_cast
