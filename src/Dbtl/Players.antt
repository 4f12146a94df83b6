-- ===== src/Dbtl/Players.antt =====
-- transaction/dbtl/logplayer.cc: the positions that the log player waits for, and its servers.
use grit.Common.{
  ◌==◌, if◌then◌else◌, Option-cases, eq-cases, eq_true, eq_false, length, get_or, replicate,
  length-append, get_or-get_elem?, All, All-map, Returns, some-injective, Table, insert,
  get_default, ℕ, zero, suc, ◌+◌, ◌≤◌, ◌<◌, ◌≡◌, refl, sym, subst, inl, inr, Option, none, some,
  List, [], ◌∷◌, arith,
}
use grit.Net.{Conn, RootMsg}
use grit.Dbtl.{
  Dbtl, send, on_db_connection, positions, start_answers, send_all, play_log, play_all, poll,
}

-- The positions that are waited for are those of servers.
abbrev pub IsInside : ℕ → Option (List ℕ) → Type 0
IsInside n o = (ps : List ℕ) → o ≡ some ps → All (λ p. p < n) ps

abbrev pub IsPlayable : Dbtl → Type 0
IsPlayable s = (t : ℕ) → IsInside (length s.db_conn_vec) (s.answer_table t)

positions-All : (i n m : ℕ) → i + n ≤ m → All (λ p. p < m) (positions i n)
unfolding positions
positions-All i zero m h = tt
positions-All i (suc n) m h = (omega (arith, h), positions-All (i + 1) n m (omega (arith, h)))

pub IsInside-insert :
    (n txid : ℕ) (ps : List ℕ) (table : Table (List ℕ))
    → All (λ p. p < n) ps
    → ((t : ℕ) → IsInside n (table t))
    → (t : ℕ) → IsInside n (insert table txid ps t)
IsInside-insert n txid ps table h k t qs e = elim (eq-cases txid t) [
  | inl same ↦ subst (All (λ p. p < n)) (some-injective (rw (eq_true same) at e)) h
  | inr apart ↦ k t qs (rw (eq_false apart) at e)
]

pub get_default-All :
    (n : ℕ) (o : Option (List ℕ)) → IsInside n o → All (λ p. p < n) (get_default [] o)
get_default-All n none h = tt
get_default-All n (some ps) h = h ps refl

-- A transaction that is played for the first time.
unfoldable pub fresh : ℕ → Dbtl → Dbtl
fresh txid s = record s {
  answer_table = insert s.answer_table txid (positions 0 (length s.db_conn_vec));
  retry_table = λ t. if txid == t then replicate (length s.db_conn_vec) 0 else s.retry_table t;
}

fresh-IsPlayable : (txid : ℕ) (s : Dbtl) → IsPlayable s → IsPlayable (fresh txid s)
unfolding fresh
fresh-IsPlayable txid s h =
    let n = length s.db_conn_vec in
    IsInside-insert n txid (positions 0 n) s.answer_table (positions-All 0 n n (omega arith)) h

pub start_answers-fresh :
    (txid : ℕ) (s : Dbtl) → s.answer_table txid ≡ none → start_answers txid s ≡ fresh txid s
unfolding fresh start_answers positions
start_answers-fresh txid s new = rw (start_answers, new) refl

pub start_answers-known :
    (txid : ℕ) (ps : List ℕ) (s : Dbtl) → s.answer_table txid ≡ some ps → start_answers txid s ≡ s
unfolding start_answers
start_answers-known txid ps s old = rw (start_answers, old) refl

start_answers-IsPlayable : (txid : ℕ) (s : Dbtl) → IsPlayable s → IsPlayable (start_answers txid s)
start_answers-IsPlayable txid s h = elim (Option-cases (s.answer_table txid)) [
  | inl new ↦ subst IsPlayable (sym (start_answers-fresh txid s new)) (fresh-IsPlayable txid s h)
  | inr (ps, old) ↦ subst IsPlayable (sym (start_answers-known txid ps s old)) h
]

send_all-Returns :
    (ps : List ℕ) (msg : RootMsg) (s : Dbtl)
    → All (λ p. p < length s.db_conn_vec) ps
    → IsPlayable s
    → Returns (send_all ps msg s) IsPlayable
unfolding send_all send
send_all-Returns [] msg s h k = (s, refl, k)
send_all-Returns (p ∷ ps) msg s h k =
    let conn = get_or s.db_conn_vec p 0 in
    let (s', run, k') = send_all-Returns ps msg (send conn msg s) h.1 k in
    (s', rw (get_or-get_elem? s.db_conn_vec p 0 h.0) run, k')

pub play_log-Returns : (txid : ℕ) (s : Dbtl) → IsPlayable s → Returns (play_log txid s) IsPlayable
unfolding play_log
play_log-Returns txid s h =
    let s' = start_answers txid s in
    let h' = start_answers-IsPlayable txid s h in
    send_all-Returns (get_default [] (s'.answer_table txid)) _ s'
      (get_default-All (length s'.db_conn_vec) (s'.answer_table txid) (h' txid)) h'

play_all-Returns :
    (txids : List ℕ) (s : Dbtl) → IsPlayable s → Returns (play_all txids s) IsPlayable
unfolding play_all
play_all-Returns [] s h = (s, refl, h)
play_all-Returns (txid ∷ txids) s h =
    let (s₁, run₁, h₁) = play_log-Returns txid s h in
    let (s₂, run₂, h₂) = play_all-Returns txids s₁ h₁ in (s₂, rw run₁ run₂, h₂)

pub poll-Returns : (time : ℕ) (s : Dbtl) → IsPlayable s → Returns (poll time s) IsPlayable
unfolding poll
poll-Returns time s h = play_all-Returns _ _ h

-- One more server.
pub on_db_connection-IsPlayable :
    (conn : Conn) (s : Dbtl) → IsPlayable s → IsPlayable (on_db_connection conn s)
unfolding on_db_connection
on_db_connection-IsPlayable conn s h t ps e =
    All-map (λ p. p < length s.db_conn_vec) _ ps
      (λ p l. omega (arith, l, length-append s.db_conn_vec (conn ∷ []))) (h t ps e)
