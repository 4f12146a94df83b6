-- ===== src/Dbtl/Readable.antt =====
-- transaction/dbtl/dbtl.cc: which logs `writeToDisk` and `writeToDiskByRocksDb` can read.
use grit.Common.{
  ◌==◌, if◌then◌else◌, Bool-cases, List-cases, to_string, Fault, Outcome, ◌>>=◌, deref, Returns,
  fault-injective, ok-ne-fault, Outcome-cases, minus_one, Text, ℕ, ◌≡◌, refl, sym, ap, ◌∙◌, ◌⊎◌,
  inl, inr, Bool, Option, none, some, List, [], ◌∷◌, ◌++◌, ok, fault,
}
use grit.Net
use grit.Net.{Conn}
use grit.Net.HeaderCmd.{k_tran_success}
use grit.Dbtl.{write_file, write_batch, Dbtl, ret_result}
use grit.Dbtl.Store.{
  read_log, record_of, write_all, batch_of, write_to_disk, write_to_disk_by_rocks_db, run_task,
}
use grit.Dbtl.Players.{IsPlayable, play_log-Returns}

abbrev pub read_items : Option (List Net.Data) → Outcome (List (Text × Text))
read_items items = deref items >>= batch_of

-- A log is written as far as its parts can be read, as for the batch of RocksDB.
write_all-Returns :
    (txid : ℕ) (ds : List Net.Data) (batch : List (Text × Text)) (s : Dbtl)
    → batch_of ds ≡ ok batch
    → IsPlayable s
    → Returns (write_all txid ds s) IsPlayable
unfolding write_all batch_of
write_all-Returns txid [] batch s e h = (s, refl, h)
write_all-Returns txid (d ∷ ds) batch s e h = elim (Outcome-cases (read_log d)) [
  | inl (log, read, _) ↦ elim (Outcome-cases (batch_of ds)) [
    | inl (rest, more, _) ↦
        let (s', run, h') =
          write_all-Returns txid ds rest
            (record s {
              calls = s.calls ++ write_file (to_string txid) (record_of log) ∷ [];
              log_table = λ t. if txid == t then s.log_table t ++ log ∷ [] else s.log_table t;
            })
            more h in
        (s', rw read run, h')
    | inr (f, broken) ↦ absurd (ok-ne-fault (sym (rw (read, broken) at e)))
  ]
  | inr (f, broken) ↦ absurd (ok-ne-fault (sym (rw broken at e)))
]

write_all-fault :
    (txid : ℕ) (ds : List Net.Data) (f : Fault) (s : Dbtl)
    → batch_of ds ≡ fault f
    → write_all txid ds s ≡ fault f
unfolding write_all batch_of
write_all-fault txid [] f s e = absurd (ok-ne-fault e)
write_all-fault txid (d ∷ ds) f s e = elim (Outcome-cases (read_log d)) [
  | inl (log, read, _) ↦ elim (Outcome-cases (batch_of ds)) [
    | inl (rest, more, _) ↦ absurd (ok-ne-fault (rw (read, more) at e))
    | inr (f', broken) ↦ rw read (write_all-fault txid ds f _ (broken ∙ (rw (read, broken) at e)))
  ]
  | inr (f', broken) ↦ rw broken (ap fault (fault-injective (rw broken at e)))
]

write_to_disk-Returns :
    (txid : ℕ) (items : Option (List Net.Data)) (batch : List (Text × Text)) (conn : Conn)
    (s : Dbtl)
    → read_items items ≡ ok batch
    → IsPlayable s
    → Returns (write_to_disk txid items conn s) IsPlayable
unfolding write_to_disk
write_to_disk-Returns txid none batch conn s e h = absurd (ok-ne-fault (sym e))
write_to_disk-Returns txid (some ds) batch conn s e h =
    let (s₁, run₁, h₁) = write_all-Returns txid ds batch s e h in
    let (s₂, run₂, h₂) = play_log-Returns txid s₁ h₁ in
    (
      ret_result k_tran_success txid minus_one conn s₂,
      rw (run₁, run₂) refl,
      unfold ret_result in h₂,
    )

write_to_disk-fault :
    (txid : ℕ) (items : Option (List Net.Data)) (conn : Conn) (f : Fault) (s : Dbtl)
    → read_items items ≡ fault f
    → write_to_disk txid items conn s ≡ fault f
unfolding write_to_disk
write_to_disk-fault txid none conn f s e = ap fault (fault-injective e)
write_to_disk-fault txid (some ds) conn f s e = rw (write_all-fault txid ds f s e) refl

write_to_disk_by_rocks_db-Returns :
    (txid : ℕ) (items : Option (List Net.Data)) (batch : List (Text × Text)) (conn : Conn)
    (s : Dbtl)
    → read_items items ≡ ok batch
    → IsPlayable s
    → Returns (write_to_disk_by_rocks_db txid items conn s) IsPlayable
unfolding write_to_disk_by_rocks_db
write_to_disk_by_rocks_db-Returns txid none batch conn s e h = absurd (ok-ne-fault (sym e))
write_to_disk_by_rocks_db-Returns txid (some ds) batch conn s e h =
    let s' : Dbtl = record s { calls = s.calls ++ write_batch batch ∷ [] } in
    (ret_result k_tran_success txid minus_one conn s', rw e refl, unfold ret_result in h)

write_to_disk_by_rocks_db-fault :
    (txid : ℕ) (items : Option (List Net.Data)) (conn : Conn) (f : Fault) (s : Dbtl)
    → read_items items ≡ fault f
    → write_to_disk_by_rocks_db txid items conn s ≡ fault f
unfolding write_to_disk_by_rocks_db
write_to_disk_by_rocks_db-fault txid none conn f s e = ap fault (fault-injective e)
write_to_disk_by_rocks_db-fault txid (some ds) conn f s e = rw e refl

pub run_task-idle :
    (use_rocks_db : Bool) (items : Option (List Net.Data)) (s : Dbtl)
    → s.tasks ≡ []
    → run_task use_rocks_db items s ≡ ok s
unfolding run_task
run_task-idle use_rocks_db items s idle =
    ap
      (λ (ts : List (ℕ × Conn)). elim ts as (λ _. Outcome Dbtl) [
        | [] ↦ ok s
        | (txid, conn) ∷ tasks ↦
            let s' : Dbtl = record s { tasks = tasks } in
            if use_rocks_db
            then write_to_disk_by_rocks_db txid items conn s'
            else write_to_disk txid items conn s'
      ])
      idle

-- The oldest task of the pool.
pub run_task-Returns :
    (use_rocks_db : Bool) (items : Option (List Net.Data)) (batch : List (Text × Text)) (s : Dbtl)
    → read_items items ≡ ok batch
    → IsPlayable s
    → Returns (run_task use_rocks_db items s) IsPlayable
unfolding run_task
run_task-Returns use_rocks_db items batch s e h = elim (List-cases s.tasks) [
  | inl idle ↦ (s, run_task-idle use_rocks_db items s idle, h)
  | inr ((txid, conn), tasks, some_task) ↦
      let s' : Dbtl = record s { tasks = tasks } in
      let disk = write_to_disk-Returns txid items batch conn s' e h in
      let rocks = write_to_disk_by_rocks_db-Returns txid items batch conn s' e h in
      elim (Bool-cases use_rocks_db) [
        | inl yes_rocks ↦ (rocks.0, rw (run_task, some_task, yes_rocks) rocks.1, rocks.2)
        | inr no_rocks ↦ (disk.0, rw (run_task, some_task, no_rocks) disk.1, disk.2)
      ]
]

pub run_task-fault :
    (use_rocks_db : Bool) (items : Option (List Net.Data)) (f : Fault) (s : Dbtl)
    → read_items items ≡ fault f
    → IsPlayable s
    → Returns (run_task use_rocks_db items s) IsPlayable ⊎ (run_task use_rocks_db items s ≡ fault f)
unfolding run_task
run_task-fault use_rocks_db items f s e h = elim (List-cases s.tasks) [
  | inl idle ↦ inl (s, run_task-idle use_rocks_db items s idle, h)
  | inr ((txid, conn), tasks, some_task) ↦
      let s' : Dbtl = record s { tasks = tasks } in
      elim (Bool-cases use_rocks_db) [
        | inl yes_rocks ↦ inr (
            rw (run_task, some_task, yes_rocks)
              (write_to_disk_by_rocks_db-fault txid items conn f s' e))
        | inr no_rocks ↦
            inr (rw (run_task, some_task, no_rocks) (write_to_disk-fault txid items conn f s' e))
      ]
]
