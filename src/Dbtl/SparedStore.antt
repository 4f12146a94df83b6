-- ===== src/Dbtl/SparedStore.antt =====
-- A storage server that has confirmed a log: the answers, the tasks and the handler of the log
-- store.
use grit.Common.{
  ltb, ◌==◌, if-both, Bool-cases, List-cases, Option-cases, eq-cases, eq_false, get_elem?,
  get_elem?-append, All, All-map, deref, Safely, Safely->>=, Safely-deref, get_default, sign_bit,
  minus_one, incr, slt, ℕ, ◌≡◌, sym, subst, ◌≢◌, inl, inr, Bool, ◌||◌, Option, none, some, List, [],
  ◌∷◌, ◌++◌,
}
use grit.Net
use grit.Net.{Conn, Sent, RootMsg, LogPlayerMsg, dbtl_msg, log_player_msg}
use grit.Net.HeaderCmd.{k_tran_success, k_log, k_lsn, k_exec_tran_succ, k_exec_tran_fail}
use grit.TimeWheel.{TimeWheel}
use grit.Dbtl.{
  Call, LogInfo, play_log, write_batch, Dbtl, on_db_connection, remove, delay, answer, ret_result,
}
use grit.Dbtl.Store.{
  read_log, write_all, write_to_disk, batch_of, write_to_disk_by_rocks_db, solve, run_task,
  on_message,
}
use grit.Dbtl.Answers.{remove-All}
use grit.Dbtl.Readable.{run_task-idle}
use grit.Dbtl.Spared.{
  GoesElsewhere, Spared, send-Spared, insert-Spared, waiting-others, play_log-Spared,
}

read_log-Safely : (d : Net.Data) → Safely (λ _. Unit {0}) (read_log d)
unfolding read_log
read_log-Safely d =
    Safely->>= (λ _. Unit {0}) (λ _. Unit {0}) (deref d.key) _ (Safely-deref d.key)
      λ _ _ _.
        Safely->>= (λ _. Unit {0}) (λ _. Unit {0}) (deref d.attribute) _ (Safely-deref d.attribute)
          λ _ _ _.
            Safely->>= (λ _. Unit {0}) (λ _. Unit {0}) (deref d.value) _ (Safely-deref d.value)
              λ _ _ _. tt

batch_of-Safely : (ds : List Net.Data) → Safely (λ _. Unit {0}) (batch_of ds)
unfolding batch_of
batch_of-Safely [] = tt
batch_of-Safely (d ∷ ds) =
    Safely->>= (λ _. Unit {0}) (λ _. Unit {0}) (read_log d) _ (read_log-Safely d)
      λ _ _ _.
        Safely->>= (λ _. Unit {0}) (λ _. Unit {0}) (batch_of ds) _ (batch_of-Safely ds) λ _ _ _. tt

delay-Safely : (time : ℕ) → Safely (λ _. Unit {0}) (delay time)
unfolding delay
delay-Safely time =
    if-both (Safely (λ _. Unit {0})) (ltb time 55) _ _ tt
      (if-both (Safely (λ _. Unit {0})) (ltb time sign_bit) _ _ tt tt)

module _ (txid id : ℕ) where
  ret_result-Spared :
      (cmd t lsn : ℕ) (conn : Conn) (s₀ s : Dbtl)
      → Spared txid id s₀ s
      → Spared txid id s₀ (ret_result cmd t lsn conn s)
  unfolding ret_result
  ret_result-Spared cmd t lsn conn s₀ s h = send-Spared txid id conn _ s₀ s (λ log. absurd log) h

  get_elem?-later :
      (conns : List Conn) (conn : Conn) (new : List Sent)
      → All (GoesElsewhere txid id conns) new
      → All (GoesElsewhere txid id (conns ++ conn ∷ [])) new
  get_elem?-later conns conn new h =
      All-map (GoesElsewhere txid id conns) (GoesElsewhere txid id (conns ++ conn ∷ [])) new
        (λ sent g log.
          let (pos, other, e) = g log in (pos, other, get_elem?-append conns (conn ∷ []) pos e))
        h

  pub on_db_connection-Spared :
      (conn : Conn) (s₀ s : Dbtl)
      → Spared txid id s₀ s
      → Spared txid id s₀ (on_db_connection conn s)
  unfolding on_db_connection
  on_db_connection-Spared conn s₀ s h = record {
    waiting = h.waiting;
    waits = h.waits;
    others = h.others;
    new = h.new;
    said = h.said;
    elsewhere = get_elem?-later s.db_conn_vec conn h.new h.elsewhere;
  }

  -- The parts of the state that have nothing to do with it.
  beside :
      (log_table : ℕ → List LogInfo) (wheel : TimeWheel ℕ) (calls : List Call)
      (tasks : List (ℕ × Conn)) (apply_lsn : ℕ) (retry_table : ℕ → List ℕ) (s₀ s : Dbtl)
      → Spared txid id s₀ s
      → Spared txid id s₀ (record s {
        log_table = log_table;
        time_wheel = wheel;
        calls = calls;
        tasks = tasks;
        apply_lsn = apply_lsn;
        retry_table = retry_table;
      })
  beside log_table wheel calls tasks apply_lsn retry_table s₀ s h = record {
    waiting = h.waiting;
    waits = h.waits;
    others = h.others;
    new = h.new;
    said = h.said;
    elsewhere = h.elsewhere;
  }

  write_all-Spared :
      (t : ℕ) (ds : List Net.Data) (s₀ s : Dbtl)
      → Spared txid id s₀ s
      → Safely (Spared txid id s₀) (write_all t ds s)
  unfolding write_all
  write_all-Spared t [] s₀ s h = h
  write_all-Spared t (d ∷ ds) s₀ s h =
      Safely->>= (λ _. Unit {0}) (Spared txid id s₀) (read_log d) _ (read_log-Safely d)
        λ log _ _.
          write_all-Spared t ds s₀ _
            (beside _ s.time_wheel _ s.tasks s.apply_lsn s.retry_table s₀ s h)

  write_to_disk-Spared :
      (t : ℕ) (items : Option (List Net.Data)) (conn : Conn) (s₀ s : Dbtl)
      → Spared txid id s₀ s
      → Safely (Spared txid id s₀) (write_to_disk t items conn s)
  unfolding write_to_disk
  write_to_disk-Spared t none conn s₀ s h = tt
  write_to_disk-Spared t (some ds) conn s₀ s h =
      Safely->>= (Spared txid id s₀) (Spared txid id s₀) (write_all t ds s) _
        (write_all-Spared t ds s₀ s h)
        λ s₁ _ h₁.
          Safely->>= (Spared txid id s₀) (Spared txid id s₀) (play_log t s₁) _
            (play_log-Spared txid id t s₀ s₁ h₁)
            λ s₂ _ h₂. ret_result-Spared k_tran_success t minus_one conn s₀ s₂ h₂

  write_to_disk_by_rocks_db-Spared :
      (t : ℕ) (items : Option (List Net.Data)) (conn : Conn) (s₀ s : Dbtl)
      → Spared txid id s₀ s
      → Safely (Spared txid id s₀) (write_to_disk_by_rocks_db t items conn s)
  unfolding write_to_disk_by_rocks_db
  write_to_disk_by_rocks_db-Spared t none conn s₀ s h = tt
  write_to_disk_by_rocks_db-Spared t (some ds) conn s₀ s h =
      Safely->>= (λ _. Unit {0}) (Spared txid id s₀) (batch_of ds) _ (batch_of-Safely ds)
        λ batch _ _.
          ret_result-Spared k_tran_success t minus_one conn s₀
            (record s { calls = s.calls ++ write_batch batch ∷ [] })
            (beside s.log_table s.time_wheel _ s.tasks s.apply_lsn s.retry_table s₀ s h)

  pub run_task-Spared :
      (use_rocks_db : Bool) (items : Option (List Net.Data)) (s₀ s : Dbtl)
      → Spared txid id s₀ s
      → Safely (Spared txid id s₀) (run_task use_rocks_db items s)
  unfolding run_task
  run_task-Spared use_rocks_db items s₀ s h = elim (List-cases s.tasks) [
    | inl idle ↦
        subst (Safely (Spared txid id s₀)) (sym (run_task-idle use_rocks_db items s idle)) h
    | inr ((t, conn), tasks, some_task) ↦
        let h' = beside s.log_table s.time_wheel s.calls tasks s.apply_lsn s.retry_table s₀ s h in
        let s' : Dbtl = record s { tasks = tasks } in
        let rocks = write_to_disk_by_rocks_db-Spared t items conn s₀ s' h' in
        let disk = write_to_disk-Spared t items conn s₀ s' h' in
        elim (Bool-cases use_rocks_db) [
          | inl yes_rocks ↦ rw (some_task, yes_rocks) rocks
          | inr no_rocks ↦ rw (some_task, no_rocks) disk
        ]
  ]

  solve-Spared :
      (conn : Conn) (msg : Net.DbtlMsg) (s₀ s : Dbtl)
      → Spared txid id s₀ s
      → Spared txid id s₀ (solve conn msg s)
  unfolding solve
  solve-Spared conn msg s₀ s h =
      if-both (Spared txid id s₀) (msg.cmd == k_log) _ _
        (beside s.log_table s.time_wheel s.calls _ s.apply_lsn s.retry_table s₀ s h)
        (if-both (Spared txid id s₀) (msg.cmd == k_lsn) _ _
          (ret_result-Spared k_lsn msg.txid s.apply_lsn conn s₀
            (record s { apply_lsn = incr s.apply_lsn })
            (beside s.log_table s.time_wheel s.calls s.tasks _ s.retry_table s₀ s h))
          h)

  failed-Spared :
      (max_retry : ℕ) (msg : LogPlayerMsg) (s₀ s : Dbtl)
      → msg.cmd ≡ k_exec_tran_fail
      → Spared txid id s₀ s
      → Safely (Spared txid id s₀) (answer max_retry msg s)
  unfolding answer
  failed-Spared max_retry msg s₀ s failed h =
      elim (Option-cases (get_elem? (s.retry_table msg.txid) msg.id)) [
        | inl missing ↦ rw (failed, missing) tt
        | inr (before, e) ↦
            rw (failed, e)
              (if-both (Safely (Spared txid id s₀)) (slt max_retry (incr before)) _ _
                (beside s.log_table s.time_wheel s.calls s.tasks s.apply_lsn _ s₀ s h)
                (Safely->>= (λ _. Unit {0}) (Spared txid id s₀) (delay (incr before)) _
                  (delay-Safely (incr before))
                  λ timeout _ _. beside s.log_table _ s.calls s.tasks s.apply_lsn _ s₀ s h))
      ]

  answer-Spared :
      (max_retry : ℕ) (msg : LogPlayerMsg) (s₀ s : Dbtl)
      → Spared txid id s₀ s
      → Safely (Spared txid id s₀) (answer max_retry msg s)
  answer-Spared max_retry msg s₀ s h = elim (eq-cases msg.cmd k_exec_tran_fail) [
    | inl failed ↦ failed-Spared max_retry msg s₀ s failed h
    | inr other ↦
        let waiting = get_default [] (s.answer_table msg.txid) in
        let others = λ (e : msg.txid ≡ txid).
          All-map _ (λ p. p ≢ id) (remove msg.id waiting) (λ p k. k.0)
            (remove-All (λ p. p ≢ id) msg.id waiting (waiting-others txid id msg.txid s₀ s h e)) in
        unfold answer in
        rw (eq_false other) (
          if-both (Safely (Spared txid id s₀)) (msg.cmd == k_exec_tran_succ) _ _
            (insert-Spared txid id msg.txid (remove msg.id waiting) s.retry_table s₀ s others h) h)
  ]

  pub on_message-Spared :
      (max_retry : ℕ) (conn : Conn) (msg : RootMsg) (s₀ s : Dbtl)
      → Spared txid id s₀ s
      → Safely (Spared txid id s₀) (on_message max_retry conn msg s)
  unfolding on_message
  on_message-Spared max_retry conn (dbtl_msg msg) s₀ s h =
      if-both (Spared txid id s₀) (msg.cmd == k_log || msg.cmd == k_lsn) _ _
        (solve-Spared conn msg s₀ s h) h
  on_message-Spared max_retry conn (log_player_msg msg) s₀ s h =
      if-both (Safely (Spared txid id s₀))
        (msg.cmd == k_exec_tran_succ || msg.cmd == k_exec_tran_fail) _ _
        (answer-Spared max_retry msg s₀ s h) h
  on_message-Spared max_retry conn _ s₀ s h = h
