-- ===== src/Dbtl/Tests.antt =====
-- A log store with two storage servers, and its theorems at concrete inputs.
use grit.Common.{
  Trace, eq-cases, eq_true, eq_false, length, get_elem?, All, ◌>>=◌, Returns, some-injective,
  none-ne-some, no_entries, insert, codes, ℕ, ◌<◌, ◌≡◌, refl, subst, ◌≢◌, inl, inr, false, none,
  some, List, [], ◌∷◌, ◌++◌, map, arith, ok, fault, null_pointer,
}
use grit.Net.{
  dbtl_msg, log_player_msg, create_dbtl_msg, create_log_player_msg, db_msg, dbtm_msg, create_data,
  create_db_msg, create_dbtm_msg,
}
use grit.Net.HeaderCmd.{k_log, k_exec_tran_fail, k_tran_success}
use grit.TimeWheel.{TimeWheel, time_wheel, add_timer, tick}
use grit.DbService
use grit.DbService.Dbtm.{data_vec}
use grit.Dbtl.{Dbtl, dbtl, delay, positions, log_data, remove, answer, play_log}
use grit.Dbtl.Store.{record_of, write_to_disk, batch_of}
use grit.Dbtl.Replies.{ask_all, numbers, ask_all-numbers}
use grit.Dbtl.Broadcast.{write_to_disk-broadcast}
use grit.Dbtl.Retry.{fail_msg, success_msg, fail_all, retries, capped, fail_all-retries}
use grit.TimeWheel.Due.{time_wheel-IsValid}
use grit.Dbtl.Players.{IsPlayable}
use grit.Dbtl.Runs.{Input, connect, message, work, clock, take_in, Refused, take_in-Trace}
use grit.Dbtl.Confirmed.{KeepsSpared, answer-Trace}
use grit.Dbtl.Meanwhile.{delay-meanwhile}
use grit.TimeWheel.Halves.{run_slot, advance}
use grit.Dbtl.Answers.{sent_to, play_log-answer}

abbrev log_store : Dbtl
log_store = record {
  apply_lsn = 4;
  log_table = λ _. [];
  db_conn_vec = 40 ∷ 41 ∷ [];
  answer_table = insert no_entries 7 (0 ∷ 1 ∷ []);
  retry_table = λ _. 0 ∷ 0 ∷ [];
  time_wheel = time_wheel 6000 100;
  outbox = [];
  calls = [];
  tasks = [];
}

abbrev apple : DbService.Data
apple = record { key = codes "apple"; label = []; attribute = codes "n"; value = codes "3" }

on_disk :
    record_of (record { key = codes "apple"; attribute = codes "n"; value = codes "3" })
    ≡ codes "apple#n:3@"
unfolding record_of
on_disk = refl

in_rocks_db :
    batch_of (create_data (some (codes "apple")) (some (codes "n")) (some (codes "3")) ∷ [])
    ≡ ok ((codes "apple", codes "n:3@") ∷ [])
unfolding batch_of
in_rocks_db = refl

-- A datum without an attribute is a null pointer.
no_attribute : batch_of (create_data (some (codes "apple")) none none ∷ []) ≡ fault null_pointer
unfolding batch_of
no_attribute = refl

write_to_disk-broadcast_example :
    Returns (write_to_disk 9 (some (data_vec (apple ∷ []))) 1 log_store) λ s'.
      (s'.outbox
        ≡ log_store.outbox
          ++ (map
                (λ c. (c, db_msg (create_db_msg 9 (some (data_vec (apple ∷ []))))))
                log_store.db_conn_vec
              ++ (1, dbtm_msg (create_dbtm_msg k_tran_success 9 false 0)) ∷ []))
      × (s'.answer_table 9 ≡ some (positions 0 (length log_store.db_conn_vec)))
write_to_disk-broadcast_example = write_to_disk-broadcast 9 (apple ∷ []) 1 log_store refl refl

fail_all-retries_example : Returns (fail_all 3 (fail_msg 7 1) 5 log_store) λ s'.
    (s'.time_wheel ≡ retries 7 log_store.time_wheel (capped 5 3))
    × (get_elem? (s'.retry_table 7) 1 ≡ some 5)
fail_all-retries_example = fail_all-retries 3 7 1 5 log_store (omega arith) (omega arith) refl

play_log-answer_example : Returns (answer 3 (success_msg 7 0) log_store >>= play_log 7) λ s'.
    (s'.outbox
      ≡ log_store.outbox
        ++ sent_to log_store.db_conn_vec
            (db_msg (create_db_msg 7 (some (log_data (log_store.log_table 7)))))
            (remove 0 (0 ∷ 1 ∷ [])))
    × (s'.answer_table 7 ≡ some (remove 0 (0 ∷ 1 ∷ [])))
    × All (λ p. p ≢ 0) (remove 0 (0 ∷ 1 ∷ []))
play_log-answer_example =
    play_log-answer 3 7 0 (0 ∷ 1 ∷ []) log_store refl (omega arith, (omega arith, tt))

ask_all-numbers_example :
    (ask_all ((1, 7) ∷ (2, 8) ∷ []) log_store).outbox
    ≡ log_store.outbox ++ numbers log_store.apply_lsn ((1, 7) ∷ (2, 8) ∷ [])
ask_all-numbers_example = ask_all-numbers ((1, 7) ∷ (2, 8) ∷ []) log_store

first_delay : delay 1 ≡ ok 2000
unfolding delay
first_delay = refl

player_wheel : (time_wheel {A = ℕ} 6000 100).nslots ≡ 6000
unfolding time_wheel
player_wheel = refl

delay-meanwhile_example :
    let w : TimeWheel ℕ = time_wheel 6000 100 in
    (advance (add_timer (run_slot w).0 2000 7).0, (run_slot w).1) ≡ tick (add_timer w 2000 7).0
delay-meanwhile_example =
    delay-meanwhile (time_wheel 6000 100) 0 2000 7
      (time_wheel-IsValid 6000 100 (omega arith) (omega arith)) player_wheel (omega arith)
      first_delay

-- A storage server connects, a log comes in and is played, and the clock is looked at; then a server
-- that never connected reports a failure.
some_inputs : List Input
some_inputs =
    connect 1
    ∷ message 9 (dbtl_msg (create_dbtl_msg k_log 7 (some [])))
    ∷ work (some [])
    ∷ clock 2600
    ∷ message 5 (log_player_msg (create_log_player_msg k_exec_tran_fail 7 4))
    ∷ []

take_in-Trace_example : Trace (take_in 3 false) IsPlayable Refused some_inputs (dbtl 0 100)
take_in-Trace_example = take_in-Trace 3 (omega arith) false 0 100 some_inputs

both_inside : All (λ p. p < 2) (0 ∷ 1 ∷ [])
both_inside = (omega arith, (omega arith, tt))

log_store-IsPlayable : IsPlayable log_store
log_store-IsPlayable t ps e = elim (eq-cases 7 t) [
  | inl same ↦ subst (All (λ p. p < 2)) (some-injective (rw (eq_true same) at e)) both_inside
  | inr other ↦ absurd (none-ne-some (rw (eq_false other) at e))
]

-- The second server has confirmed, the first fails, and the log is played again.
failure_inputs : List Input
failure_inputs = message 40 (log_player_msg (fail_msg 7 0)) ∷ clock 5000 ∷ []

answer-Trace_example :
    Returns
      (answer 3 (success_msg 7 1) log_store)
      λ s₁. Trace (take_in 3 false) (KeepsSpared 7 1 s₁) Refused failure_inputs s₁
answer-Trace_example =
    answer-Trace 3 (omega arith) false 7 1 log_store failure_inputs log_store-IsPlayable
