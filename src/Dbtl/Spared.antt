-- ===== src/Dbtl/Spared.antt =====
-- A storage server that has confirmed a log, through a whole run: what the log player does.
use grit.Common.{
  Option-cases, eq-cases, eq_true, eq_false, length, get_elem?, All, All-append, Safely, Safely->>=,
  none-ne-some, insert, get_default, ℕ, ◌≡◌, refl, sym, ap, subst, ◌∙◌, ◌≢◌, inl, inr, some, List,
  [], ◌∷◌, ◌++◌, append_assoc,
}
use grit.Net.{Conn, Sent, RootMsg, db_msg}
use grit.Dbtl.{Dbtl, positions, send, start_answers, send_all, play_log, play_all, poll}
use grit.TimeWheel.{take_all_timeout}
use grit.Dbtl.Players.{fresh, start_answers-fresh, start_answers-known}

-- A log of the transaction.
abbrev pub IsLog : ℕ → RootMsg → Type 0
IsLog txid (db_msg m) = m.txid ≡ txid
IsLog txid _ = ⊥

All-under :
    (P : Type 0) (id : ℕ) (ps : List ℕ) → (P → All (λ p. p ≢ id) ps) → All (λ p. P → p ≢ id) ps
All-under P id [] h = tt
All-under P id (p ∷ ps) h = ((λ x. (h x).0), All-under P id ps (λ x. (h x).1))

module _ (txid id : ℕ) where
  -- If it is a log of the transaction, it goes to a server at another position.
  abbrev pub GoesElsewhere : List Conn → Sent → Type 0
  GoesElsewhere conns (conn, msg) =
      IsLog txid msg → (pos : ℕ) × (pos ≢ id) × (get_elem? conns pos ≡ some conn)

  -- Since the state `s₀`: the server is not waited for, and no log has been sent to it.
  pub record Spared (s₀ s : Dbtl) : Type 0 where
    pub waiting : List ℕ
    pub waits : s.answer_table txid ≡ some waiting
    pub others : All (λ p. p ≢ id) waiting
    pub new : List Sent
    pub said : s.outbox ≡ s₀.outbox ++ new
    pub elsewhere : All (GoesElsewhere s.db_conn_vec) new

  pub send-Spared :
      (conn : Conn) (msg : RootMsg) (s₀ s : Dbtl)
      → GoesElsewhere s.db_conn_vec (conn, msg)
      → Spared s₀ s
      → Spared s₀ (send conn msg s)
  unfolding send
  send-Spared conn msg s₀ s g h = record {
    waiting = h.waiting;
    waits = h.waits;
    others = h.others;
    new = h.new ++ (conn, msg) ∷ [];
    said = rw h.said (append_assoc s₀.outbox h.new _);
    elsewhere = All-append (GoesElsewhere s.db_conn_vec) h.new _ h.elsewhere (g, tt);
  }

  send_all-Spared :
      (ps : List ℕ) (msg : RootMsg) (s₀ s : Dbtl)
      → All (λ p. IsLog txid msg → p ≢ id) ps
      → Spared s₀ s
      → Safely (Spared s₀) (send_all ps msg s)
  unfolding send_all
  send_all-Spared [] msg s₀ s g h = h
  send_all-Spared (p ∷ ps) msg s₀ s g h = elim (Option-cases (get_elem? s.db_conn_vec p)) [
    | inl outside ↦ rw outside tt
    | inr (conn, e) ↦ rw e (
        send_all-Spared ps msg s₀ (send conn msg s) g.1
          (send-Spared conn msg s₀ s (λ log. (p, g.0 log, e)) h))
  ]

  -- An entry of another transaction changes nothing.
  pub insert-Spared :
      (t : ℕ) (ps : List ℕ) (retry_table : ℕ → List ℕ) (s₀ s : Dbtl)
      → (t ≡ txid → All (λ p. p ≢ id) ps)
      → Spared s₀ s
      → Spared s₀
          (record s { answer_table = insert s.answer_table t ps; retry_table = retry_table })
  insert-Spared t ps retry_table s₀ s g h = elim (eq-cases t txid) [
    | inl same ↦ record {
      waiting = ps;
      waits = rw (eq_true same) refl;
      others = g same;
      new = h.new;
      said = h.said;
      elsewhere = h.elsewhere;
    }
    | inr other ↦ record {
      waiting = h.waiting;
      waits = rw (eq_false other) h.waits;
      others = h.others;
      new = h.new;
      said = h.said;
      elsewhere = h.elsewhere;
    }
  ]

  start_answers-Spared : (t : ℕ) (s₀ s : Dbtl) → Spared s₀ s → Spared s₀ (start_answers t s)
  unfolding fresh
  start_answers-Spared t s₀ s h = elim (Option-cases (s.answer_table t)) [
    | inl new ↦ subst (Spared s₀) (sym (start_answers-fresh t s new)) (
        insert-Spared t (positions 0 (length s.db_conn_vec)) _ s₀ s
          (λ e. absurd (none-ne-some (sym new ∙ ap s.answer_table e ∙ h.waits))) h)
    | inr (ps, old) ↦ subst (Spared s₀) (sym (start_answers-known t ps s old)) h
  ]

  -- What is waited for, in the answers of one transaction.
  pub waiting-others :
      (t : ℕ) (s₀ s : Dbtl)
      → Spared s₀ s
      → t ≡ txid
      → All (λ p. p ≢ id) (get_default [] (s.answer_table t))
  waiting-others t s₀ s h e = rw (e, h.waits) h.others

  pub play_log-Spared : (t : ℕ) (s₀ s : Dbtl) → Spared s₀ s → Safely (Spared s₀) (play_log t s)
  unfolding play_log
  play_log-Spared t s₀ s h =
      let s' = start_answers t s in
      let h' = start_answers-Spared t s₀ s h in
      send_all-Spared (get_default [] (s'.answer_table t)) _ s₀ s'
        (All-under (t ≡ txid) id (get_default [] (s'.answer_table t)) (waiting-others t s₀ s' h'))
        h'

  pub play_all-Spared :
      (ts : List ℕ) (s₀ s : Dbtl) → Spared s₀ s → Safely (Spared s₀) (play_all ts s)
  unfolding play_all
  play_all-Spared [] s₀ s h = h
  play_all-Spared (t ∷ ts) s₀ s h =
      Safely->>= (Spared s₀) (Spared s₀) (play_log t s) (play_all ts) (play_log-Spared t s₀ s h)
        λ s' _ h'. play_all-Spared ts s₀ s' h'

  pub poll-Spared : (time : ℕ) (s₀ s : Dbtl) → Spared s₀ s → Safely (Spared s₀) (poll time s)
  unfolding poll
  poll-Spared time s₀ s h =
      let (wheel, fired) = take_all_timeout s.time_wheel time in
      play_all-Spared fired s₀ (record s { time_wheel = wheel })
        (record {
          waiting = h.waiting;
          waits = h.waits;
          others = h.others;
          new = h.new;
          said = h.said;
          elsewhere = h.elsewhere;
        })
