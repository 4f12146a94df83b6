-- ===== src/Dbtl/Answers.antt =====
-- A storage server that has confirmed a log.
use grit.Common.{
  ==_refl, eq-cases, eq_true, eq_false, length, get_or, get_or-get_elem?, All, All-map, ◌>>=◌,
  Returns, insert, ℕ, ◌<◌, ◌≡◌, refl, sym, ap, ◌∙◌, ◌≢◌, inl, inr, some, List, [], ◌∷◌, ◌++◌, map,
  append_assoc, append-nil, ok,
}
use grit.Net.{Conn, Sent, RootMsg, db_msg, create_db_msg}
use grit.Dbtl.{Dbtl, send, start_answers, log_data, send_all, play_log, remove, answer}
use grit.Dbtl.Retry.{success_msg}

pub remove-All :
    (P : ℕ → Type 0) (id : ℕ) (xs : List ℕ) → All P xs → All (λ x. P x × (x ≢ id)) (remove id xs)
unfolding remove
remove-All P id [] h = tt
remove-All P id (x ∷ xs) h = elim (eq-cases x id) [
  | inl same ↦ rw (eq_true same) (remove-All P id xs h.1)
  | inr other ↦ rw (eq_false other) ((h.0, other), remove-All P id xs h.1)
]

-- The messages to the servers at the given positions.
abbrev pub sent_to : List Conn → RootMsg → List ℕ → List Sent
sent_to conns msg = map (λ pos. (get_or conns pos 0, msg))

pub send_all-sent_to :
    (ps : List ℕ) (id : ℕ) (msg : RootMsg) (s : Dbtl)
    → All (λ p. (p < length s.db_conn_vec) × (p ≢ id)) ps
    → send_all ps msg s ≡ ok (record s { outbox = s.outbox ++ sent_to s.db_conn_vec msg ps })
unfolding send_all send
send_all-sent_to [] id msg s h =
    ap (λ (o : List Sent). ok (record s { outbox = o })) (sym (append-nil s.outbox))
send_all-sent_to (p ∷ ps) id msg s h = rw (get_or-get_elem? s.db_conn_vec p 0 h.0.0) (
    send_all-sent_to ps id msg (send (get_or s.db_conn_vec p 0) msg s) h.1
    ∙ ap (λ (o : List Sent). ok (record s { outbox = o })) (append_assoc s.outbox _ _))

pub play_log-again :
    (txid : ℕ) (ps : List ℕ) (s : Dbtl)
    → s.answer_table txid ≡ some ps
    → play_log txid s
      ≡ send_all ps (db_msg (create_db_msg txid (some (log_data (s.log_table txid))))) s
unfolding play_log
play_log-again txid ps s e = rw (start_answers, e, e) refl

confirmed : ℕ → List ℕ → Dbtl → Dbtl
confirmed txid left s = record s { answer_table = insert s.answer_table txid left }

answer-confirmed :
    (max_retry txid id : ℕ) (waiting : List ℕ) (s : Dbtl)
    → s.answer_table txid ≡ some waiting
    → answer max_retry (success_msg txid id) s ≡ ok (confirmed txid (remove id waiting) s)
unfolding answer confirmed
answer-confirmed max_retry txid id waiting s e = rw e refl

-- When a server has confirmed a log, and all that are waited for are connected, playing the log
-- once more sends it to the servers that are still waited for, in their order, and not to that
-- server.
pub play_log-answer :
    (max_retry txid id : ℕ) (waiting : List ℕ) (s : Dbtl)
    → s.answer_table txid ≡ some waiting
    → All (λ p. p < length s.db_conn_vec) waiting
    → Returns (answer max_retry (success_msg txid id) s >>= play_log txid) λ s'.
      (s'.outbox
        ≡ s.outbox
          ++ sent_to s.db_conn_vec
              (db_msg (create_db_msg txid (some (log_data (s.log_table txid)))))
              (remove id waiting))
      × (s'.answer_table txid ≡ some (remove id waiting))
      × All (λ p. p ≢ id) (remove id waiting)
unfolding confirmed
play_log-answer max_retry txid id waiting s e h =
    let left = remove id waiting in
    let done = confirmed txid left s in
    let kept : done.answer_table txid ≡ some left = rw (==_refl txid) refl in
    let msg = db_msg (create_db_msg txid (some (log_data (s.log_table txid)))) in
    let both = remove-All (λ p. p < length s.db_conn_vec) id waiting h in
    (
      record done { outbox = s.outbox ++ sent_to s.db_conn_vec msg left },
      rw (answer-confirmed max_retry txid id waiting s e)
          (play_log-again txid left done kept ∙ send_all-sent_to left id msg done both),
      (
        refl,
        kept,
        All-map (λ p. (p < length s.db_conn_vec) × (p ≢ id)) (λ p. p ≢ id) left (λ p h'. h'.1) both,
      ),
    )
