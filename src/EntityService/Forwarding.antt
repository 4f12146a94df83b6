-- ===== src/EntityService/Forwarding.antt =====
-- What the entity service sends, as the database service reads it.
use grit.Common.{
  ◌==◌, Bool-cases, deref, deref-eq-ok, Safely, Safely->>=, Text, ℕ, ◌≡◌, refl, inl, inr, false,
  ◌||◌, none, some, [], ◌∷◌, ◌++◌, fault, null_pointer,
}
use grit.Net.{Conn, db_service_msg, EsMsg, DbServiceMsg, create_data, create_db_service_msg}
use grit.Net.HeaderCmd.{k_add, k_delete, k_data}
use grit.DbService.{Dbs, find_or_new, get_read_write_set, read_all, read_data}
use grit.Hash.Safe.{Anything}
use grit.DbService.Sound.{IsValid, deref-Safely, load-eq-ok, find_or_new-Found}
use grit.DbService.Handler.{on_data, on_message}
use grit.EntityService.{Es, send, dbs_msg, solve}

-- A command that writes sends a write set only, and any other a read set of which the datum has a key
-- only.
pub write_msg : ℕ → Text → Text → Text → DbServiceMsg
write_msg txid key attr val =
    create_db_service_msg k_data txid false none
      (some (create_data (some key) (some attr) (some val) ∷ []))

pub read_msg : ℕ → Text → DbServiceMsg
read_msg txid key =
    create_db_service_msg k_data txid false (some (create_data (some key) none none ∷ [])) none

write_msg-fault :
    (conn : Conn) (txid : ℕ) (key attr val : Text) (d : Dbs)
    → IsValid d
    → on_message conn (db_service_msg (write_msg txid key attr val)) d ≡ fault null_pointer
unfolding on_message on_data get_read_write_set write_msg
write_msg-fault conn txid key attr val d v =
    let f = find_or_new-Found txid d v in
    rw (load-eq-ok (find_or_new txid d).0 (find_or_new txid d).1 f.here) refl

read_msg-fault :
    (conn : Conn) (txid : ℕ) (key : Text) (d : Dbs)
    → IsValid d
    → on_message conn (db_service_msg (read_msg txid key)) d ≡ fault null_pointer
unfolding on_message on_data get_read_write_set read_msg read_all read_data
read_msg-fault conn txid key d v =
    let f = find_or_new-Found txid d v in
    rw (load-eq-ok (find_or_new txid d).0 (find_or_new txid d).1 f.here) refl

-- A database service that receives the message reads a null pointer, whatever well-formed state it
-- is in.
abbrev pub IsFatal : DbServiceMsg → Type 0
IsFatal m =
    (conn : Conn) (d : Dbs) → IsValid d → on_message conn (db_service_msg m) d ≡ fault null_pointer

-- One message has been sent, and it is fatal.
pub record Crashes (s s' : Es) : Type 0 where
  pub dbs : Conn
  pub known : s.dbs_conn ≡ some dbs
  pub m : DbServiceMsg
  pub said : s'.outbox ≡ s.outbox ++ (dbs, db_service_msg m) ∷ []
  pub fatal : IsFatal m

-- Where `ES::solve` returns, for any command, it has sent one message to its database service, and
-- that service reads a null pointer when the message arrives, whatever well-formed state it is in.
pub solve-Crashes : (msg : EsMsg) (s : Es) → Safely (Crashes s) (solve msg s)
unfolding solve send write_msg read_msg dbs_msg
solve-Crashes msg s =
    Safely->>= Anything (Crashes s) (deref msg.key) _ (deref-Safely msg.key) λ key _ _.
      Safely->>= IsFatal (Crashes s) (dbs_msg msg key) _
        (elim (Bool-cases (msg.cmd == k_add || msg.cmd == k_delete)) [
          | inl writes ↦ rw writes (
              Safely->>= Anything IsFatal (deref msg.attr) _ (deref-Safely msg.attr) λ attr _ _.
                Safely->>= Anything IsFatal (deref msg.val) _ (deref-Safely msg.val)
                  λ val _ _. λ conn d v. write_msg-fault conn msg.txid key attr val d v)
          | inr reads ↦ rw reads (λ conn d v. read_msg-fault conn msg.txid key d v)
        ])
        λ m _ fatal.
          Safely->>= Anything (Crashes s) (deref s.dbs_conn) _ (deref-Safely s.dbs_conn) λ dbs e _.
            record {
              dbs = dbs;
              known = deref-eq-ok s.dbs_conn e;
              m = m;
              said = refl;
              fatal = fatal;
            }
