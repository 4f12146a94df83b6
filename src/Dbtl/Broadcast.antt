-- ===== src/Dbtl/Broadcast.antt =====
-- A log on its way from a database service to the storage servers.
use grit.Common.{
  ◌==◌, if◌then◌else◌, ==_refl, length, get_elem?, replicate, length-append, ◌>>=◌, Returns, Table,
  insert, minus_one, ℕ, ◌+◌, ◌≡◌, refl, sym, ap, subst, ◌∙◌, false, none, some, List, [], ◌∷◌, ◌++◌,
  map, append_assoc, append-nil, ok,
}
use grit.Net.{Conn, Sent, RootMsg, db_msg, dbtm_msg, create_db_msg, create_dbtm_msg}
use grit.Net.HeaderCmd.{k_tran_success}
use grit.DbService
use grit.DbService.Dbtm.{data_vec}
use grit.Dbtl.{
  LogInfo, Dbtl, send, positions, start_answers, log_data, send_all, play_log, ret_result,
}
use grit.Dbtl.Store.{read_log, write_all, write_to_disk}

-- The data of a write set as the log store keeps it.
abbrev infos : List DbService.Data → List LogInfo
infos [] = []
infos (d ∷ ds) = record { key = d.key; attribute = d.attribute; value = d.value } ∷ infos ds

log_data-infos : (ds : List DbService.Data) → log_data (infos ds) ≡ data_vec ds
unfolding log_data data_vec
log_data-infos [] = refl
log_data-infos (d ∷ ds) = rw (log_data-infos ds) refl

record Logged (txid : ℕ) (logs : List LogInfo) (s s' : Dbtl) : Type 0 where
  kept : s'.log_table txid ≡ s.log_table txid ++ logs
  same_servers : s'.db_conn_vec ≡ s.db_conn_vec
  same_answers : s'.answer_table ≡ s.answer_table
  same_outbox : s'.outbox ≡ s.outbox

write_all-Logged :
    (txid : ℕ) (ds : List DbService.Data) (s : Dbtl)
    → Returns (write_all txid (data_vec ds) s) (Logged txid (infos ds) s)
unfolding write_all read_log data_vec
write_all-Logged txid [] s = (
  s,
  refl,
  record {
    kept = sym (append-nil (s.log_table txid));
    same_servers = refl;
    same_answers = refl;
    same_outbox = refl;
  },
)
write_all-Logged txid (d ∷ ds) s =
    let (s', run, l) = write_all-Logged txid ds _ in
    (
      s',
      run,
      record {
        kept = l.kept ∙ rw (==_refl txid) (append_assoc (s.log_table txid) _ (infos ds));
        same_servers = l.same_servers;
        same_answers = l.same_answers;
        same_outbox = l.same_outbox;
      },
    )

get_elem?-behind :
    {A : Type 0} (before : List A) (x : A) (after : List A)
    → get_elem? (before ++ x ∷ after) (length before) ≡ some x
get_elem?-behind [] x after = refl
get_elem?-behind (y ∷ before) x after = get_elem?-behind before x after

send_all-positions :
    (before conns : List Conn) (i : ℕ) (msg : RootMsg) (s : Dbtl)
    → s.db_conn_vec ≡ before ++ conns
    → length before ≡ i
    → send_all (positions i (length conns)) msg s
      ≡ ok (record s { outbox = s.outbox ++ map (λ c. (c, msg)) conns })
unfolding send_all positions send
send_all-positions before [] i msg s e w =
    ap (λ (o : List Sent). ok (record s { outbox = o })) (sym (append-nil s.outbox))
send_all-positions before (c ∷ conns) i msg s e w =
    let here : get_elem? s.db_conn_vec i ≡ some c =
      subst (λ v. get_elem? v i ≡ some c) (sym e)
        (subst (λ k. get_elem? (before ++ c ∷ conns) k ≡ some c) w
          (get_elem?-behind before c conns)) in
    rw here (
      send_all-positions (before ++ c ∷ []) conns (i + 1) msg (send c msg s)
        (e ∙ sym (append_assoc before (c ∷ []) conns))
        (length-append before (c ∷ []) ∙ ap (λ (k : ℕ). k + 1) w)
      ∙ ap (λ (o : List Sent). ok (record s { outbox = o })) (append_assoc s.outbox _ _))

-- A transaction that is played for the first time.
started : ℕ → Dbtl → Dbtl
started txid s = record s {
  answer_table = insert s.answer_table txid (positions 0 (length s.db_conn_vec));
  retry_table = λ t. if txid == t then replicate (length s.db_conn_vec) 0 else s.retry_table t;
  outbox =
      s.outbox
      ++ map (λ c. (c, db_msg (create_db_msg txid (some (log_data (s.log_table txid))))))
          s.db_conn_vec;
}

play_log-started :
    (txid : ℕ) (s : Dbtl) → s.answer_table txid ≡ none → play_log txid s ≡ ok (started txid s)
unfolding play_log started
play_log-started txid s e =
    let s' : Dbtl = record s {
      answer_table = insert s.answer_table txid (positions 0 (length s.db_conn_vec));
      retry_table = λ t. if txid == t then replicate (length s.db_conn_vec) 0 else s.retry_table t;
    } in
    rw (start_answers, e, ==_refl txid)
      (send_all-positions [] s.db_conn_vec 0
        (db_msg (create_db_msg txid (some (log_data (s.log_table txid))))) s' refl refl)

finish :
    (txid : ℕ) (ds : List DbService.Data) (conn : Conn) (s s₁ : Dbtl)
    → s.answer_table txid ≡ none
    → s.log_table txid ≡ []
    → Logged txid (infos ds) s s₁
    → Returns
        (play_log txid s₁ >>= λ s''. ok (ret_result k_tran_success txid minus_one conn s''))
        λ s'.
          (s'.outbox
            ≡ s.outbox
              ++ (map (λ c. (c, db_msg (create_db_msg txid (some (data_vec ds))))) s.db_conn_vec
                  ++ (conn, dbtm_msg (create_dbtm_msg k_tran_success txid false 0)) ∷ []))
          × (s'.answer_table txid ≡ some (positions 0 (length s.db_conn_vec)))
unfolding ret_result send started
finish txid ds conn s s₁ fresh empty l =
    let fresh₁ : s₁.answer_table txid ≡ none =
      ap (λ (t : Table (List ℕ)). t txid) l.same_answers ∙ fresh in
    let kept₁ : s₁.log_table txid ≡ infos ds =
      l.kept ∙ ap (λ (x : List LogInfo). x ++ infos ds) empty in
    (
      ret_result k_tran_success txid minus_one conn (started txid s₁),
      rw (play_log-started txid s₁ fresh₁) refl,
      (
        rw (kept₁, log_data-infos ds, l.same_outbox, l.same_servers) (append_assoc s.outbox _ _),
        rw (==_refl txid, l.same_servers) refl,
      ),
    )

-- The first log of a transaction, which has no log and no answers yet: all its data go to each of
-- the storage servers, in the order in which the servers were connected, as they were in the write
-- set of the database service; the service is told of the success, with no wait; and all servers
-- are waited for.
pub write_to_disk-broadcast :
    (txid : ℕ) (ds : List DbService.Data) (conn : Conn) (s : Dbtl)
    → s.answer_table txid ≡ none
    → s.log_table txid ≡ []
    → Returns (write_to_disk txid (some (data_vec ds)) conn s) λ s'.
      (s'.outbox
        ≡ s.outbox
          ++ (map (λ c. (c, db_msg (create_db_msg txid (some (data_vec ds))))) s.db_conn_vec
              ++ (conn, dbtm_msg (create_dbtm_msg k_tran_success txid false 0)) ∷ []))
      × (s'.answer_table txid ≡ some (positions 0 (length s.db_conn_vec)))
unfolding write_to_disk
write_to_disk-broadcast txid ds conn s fresh empty =
    let (s₁, run, l) = write_all-Logged txid ds s in
    let (s₂, run₂, facts) = finish txid ds conn s s₁ fresh empty l in (s₂, rw run run₂, facts)
