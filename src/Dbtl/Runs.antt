-- ===== src/Dbtl/Runs.antt =====
-- The log store and its log player through a whole run: storage servers connect, logs and answers
-- come in, the one thread of the pool runs its tasks, and the thread of the wheel looks at the
-- clock.
use grit.Common.{
  Stride, Trace, run_all-Trace, ltb, ◌==◌, if◌then◌else◌, Bool-cases, Option-cases, eq-cases,
  eq_true, eq_false, length, get_elem?, set, All-map, Fault, Outcome, Returns, Outcome-cases,
  none-ne-some, insert, get_default, word_mod, sign_bit, incr, slt, ℕ, ◌-◌, ◌*◌, ◌/◌, ◌^◌, ◌<◌, ◌≡◌,
  refl, inl, inr, Bool, false, Option, none, List, [], ◌∷◌, ◌++◌, arith, ok, fault, carries_on,
  halts, out_of_range,
}
use grit.Net.{Conn, RootMsg, LogPlayerMsg, dbtl_msg, log_player_msg}
use grit.Net.HeaderCmd.{k_log, k_lsn, k_exec_tran_succ, k_exec_tran_fail}
use grit.Net
use grit.Dbtl.{Dbtl, dbtl, on_db_connection, poll, delay, answer, remove, ret_result}
use grit.TimeWheel.{add_timer}
use grit.Dbtl.Store.{solve, run_task, on_message}
use grit.Dbtl.Answers.{remove-All}
use grit.Dbtl.Readable.{read_items, run_task-Returns, run_task-fault}
use grit.Dbtl.Players.{
  IsPlayable, IsInside-insert, get_default-All, poll-Returns, on_db_connection-IsPlayable,
}

-- A task runs with what the memory of its message then holds.
pub data Input : Type 0 where
  connect : Conn → Input
  message : Conn → RootMsg → Input
  work : Option (List Net.Data) → Input
  clock : ℕ → Input

unfoldable pub take_in : ℕ → Bool → Input → Dbtl → Outcome Dbtl
take_in max_retry use_rocks_db (connect conn) s = ok (on_db_connection conn s)
take_in max_retry use_rocks_db (message conn msg) s = on_message max_retry conn msg s
take_in max_retry use_rocks_db (work items) s = run_task use_rocks_db items s
take_in max_retry use_rocks_db (clock time) s = poll time s

-- What ends the process: a failure that is reported by a server which is not counted for the
-- transaction, and a log of which a part is missing.
abbrev pub Refused : Input → Dbtl → Type 0
Refused (message conn (log_player_msg msg)) s =
    (msg.cmd ≡ k_exec_tran_fail) × (get_elem? (s.retry_table msg.txid) msg.id ≡ none)
Refused (work items) s = (f : Fault) × (read_items items ≡ fault f)
Refused _ s = ⊥

delay-Returns :
    (max_retry time : ℕ)
    → max_retry < 55
    → slt max_retry time ≡ false
    → Returns (delay time) λ _. Unit {0}
unfolding delay
delay-Returns max_retry time small h = elim (Bool-cases (ltb time 55)) [
  | inl early ↦ (2 ^ time * 1000, rw early refl, tt)
  | inr late ↦
      let negative : ltb time sign_bit ≡ false = ground (arith, small, h, late) in
      (1000 / 2 ^ (word_mod - time), rw (late, negative) refl, tt)
]

-- A server has confirmed, has failed once too often, and has failed so that there is a retry.
unfoldable pub confirmed : ℕ → ℕ → Dbtl → Dbtl
confirmed txid id s = record s {
  answer_table = insert s.answer_table txid (remove id (get_default [] (s.answer_table txid)));
}

counted : ℕ → ℕ → ℕ → Dbtl → Dbtl
counted txid id time s = record s {
  retry_table = λ t. if txid == t then set (s.retry_table txid) id time else s.retry_table t;
}

scheduled : ℕ → ℕ → ℕ → ℕ → Dbtl → Dbtl
unfolding counted
scheduled txid id time timeout s = record (counted txid id time s) {
  time_wheel = (add_timer s.time_wheel timeout txid).0;
}

pub confirmed-IsPlayable :
    (txid id : ℕ) (s : Dbtl) → IsPlayable s → IsPlayable (confirmed txid id s)
unfolding confirmed
confirmed-IsPlayable txid id s h =
    let n = length s.db_conn_vec in
    let ps = get_default [] (s.answer_table txid) in
    let old = get_default-All n (s.answer_table txid) (h txid) in
    IsInside-insert n txid (remove id ps) s.answer_table
      (All-map _ (λ p. p < n) (remove id ps) (λ p k. k.0) (remove-All (λ p. p < n) id ps old)) h

module _ (max_retry : ℕ) (small : max_retry < 55) (use_rocks_db : Bool) where
  answer-Stride :
      (conn : Conn) (msg : LogPlayerMsg) (s : Dbtl)
      → IsPlayable s
      → Stride
          (take_in max_retry use_rocks_db)
          IsPlayable
          Refused
          (message conn (log_player_msg msg))
          s
  unfolding take_in on_message confirmed counted scheduled
  answer-Stride conn msg s h = elim (eq-cases msg.cmd k_exec_tran_succ) [
    | inl done ↦
        carries_on (confirmed msg.txid msg.id s) (unfold answer in rw (eq_true done) refl)
          (confirmed-IsPlayable msg.txid msg.id s h)
    | inr not_done ↦ elim (eq-cases msg.cmd k_exec_tran_fail) [
      | inl failed ↦ elim (Option-cases (get_elem? (s.retry_table msg.txid) msg.id)) [
        | inl missing ↦
            halts out_of_range
              (unfold answer in rw (eq_false not_done, eq_true failed, missing) refl)
              (failed, missing)
        | inr (before, e) ↦ elim (Bool-cases (slt max_retry (incr before))) [
          | inl over ↦
              carries_on (counted msg.txid msg.id (incr before) s)
                (unfold answer in rw (eq_false not_done, eq_true failed, e, over) refl) h
          | inr again ↦
              let (timeout, d, _) = delay-Returns max_retry (incr before) small again in
              carries_on (scheduled msg.txid msg.id (incr before) timeout s)
                (unfold answer in rw (eq_false not_done, eq_true failed, e, again, d) refl) h
        ]
      ]
      | inr ignored ↦ carries_on s (rw (eq_false not_done, eq_false ignored) refl) h
    ]
  ]

  message-Stride :
      (conn : Conn) (msg : RootMsg) (s : Dbtl)
      → IsPlayable s
      → Stride (take_in max_retry use_rocks_db) IsPlayable Refused (message conn msg) s
  unfolding take_in on_message
  message-Stride conn (log_player_msg msg) s h = answer-Stride conn msg s h
  message-Stride conn (dbtl_msg msg) s h = elim (eq-cases msg.cmd k_log) [
    | inl log ↦
        carries_on (record s { tasks = s.tasks ++ (msg.txid, conn) ∷ [] })
          (unfold solve in rw (eq_true log) refl) h
    | inr other ↦ elim (eq-cases msg.cmd k_lsn) [
      | inl lsn ↦
          carries_on
            (ret_result k_lsn msg.txid s.apply_lsn conn (record s { apply_lsn = incr s.apply_lsn }))
            (unfold solve in rw (eq_false other, eq_true lsn) refl) (unfold ret_result in h)
      | inr ignored ↦ carries_on s (unfold solve in rw (eq_false other, eq_false ignored) refl) h
    ]
  ]
  message-Stride conn _ s h = carries_on s refl h

  pub take_in-Stride :
      (e : Input) (s : Dbtl)
      → IsPlayable s
      → Stride (take_in max_retry use_rocks_db) IsPlayable Refused e s
  unfolding take_in
  take_in-Stride (connect conn) s h =
      carries_on (on_db_connection conn s) refl (on_db_connection-IsPlayable conn s h)
  take_in-Stride (message conn msg) s h = message-Stride conn msg s h
  take_in-Stride (work items) s h = elim (Outcome-cases (read_items items)) [
    | inl (batch, e, _) ↦
        let (s', run, h') = run_task-Returns use_rocks_db items batch s e h in carries_on s' run h'
    | inr (f, e) ↦ elim (run_task-fault use_rocks_db items f s e h) [
      | inl (s', run, h') ↦ carries_on s' run h'
      | inr halt ↦ halts f halt (f, e)
    ]
  ]
  take_in-Stride (clock time) s h =
      let (s', run, h') = poll-Returns time s h in carries_on s' run h'

  -- The log player of a configuration that allows fewer than 55 retries, from its start, with any
  -- servers, messages, tasks and looks at the clock: every position that is waited for is always one
  -- of a connected server. All inputs of a run are handled, or else all up to the first failure that
  -- a server reports which is not counted for the transaction, or the first task on a log of which a
  -- part is missing; that one is a fault. So no playing of a log and no look at the clock is one.
  pub take_in-Trace :
      (apply_lsn now : ℕ) (es : List Input)
      → Trace (take_in max_retry use_rocks_db) IsPlayable Refused es (dbtl apply_lsn now)
  unfolding dbtl
  take_in-Trace apply_lsn now es =
      run_all-Trace (take_in max_retry use_rocks_db) IsPlayable Refused take_in-Stride es
        (dbtl apply_lsn now) λ t ps e. absurd (none-ne-some e)
