-- ===== src/DbService/Incoming.antt =====
-- The messages that come in, and the transactions that wait to be judged.
use grit.Common.{
  ◌==◌, if◌then◌else◌, ==_refl, Bool-cases, Option-cases, false-ne-true, All, Lacks, Distinct,
  All-Unit, deref, Safely, Safely->>=, Safely-map, Safely-both, Table, insert, minus_one, slt, ℕ,
  ◌≡◌, refl, inl, inr, Bool, true, false, ◌||◌, List, [], ◌∷◌, ◌++◌, ok,
}
use grit.Net.{
  Conn, RootMsg, db_service_msg, dbtm_msg, DbServiceMsg, DbtmMsg, empty_msg, gtm_msg, app_msg,
  dbtl_msg, dbtl_ack_msg, es_msg, db_msg, log_player_msg,
}
use grit.Net.HeaderCmd.{k_commit, k_lsn, k_data, k_judge_conflit, k_tran_success, k_tran_fail}
use grit.Hash.Safe.{Anything}
use grit.DbService.{
  Transaction, Dbs, Task, get_lsn_task, solve_task, store, enqueue, find_or_new, get_read_write_set,
  read_all, ret_result,
}
use grit.DbService.Sound.{
  IsValid, deref-Safely, load-eq-ok, with_tran, read_all-Safely, find_or_new-Found,
  get_read_write_set-Safely,
}
use grit.DbService.Handler.{on_data, on_commit, on_lsn, on_message}
use grit.DbService.Fit.{
  pointers, Held, Fit, Fit-store, Fit-new, Fit-enqueue, Fit-judge, Fit-later, commit-Lacks,
  number-Lacks,
}
use grit.DbService.Frames.{Frame, ret_result-Framed}
use grit.DbService.Runs.{commit_of, number_of}

abbrev pub IsFit : List ℕ → List ℕ → Dbs → Type 0
IsFit cs ns s = Fit cs ns s.txid_trans s.heap s.tasks

-- What a task leaves.
still_ready :
    (cs ns : List ℕ) (spared : ℕ → Type 0) {trans trans' : Table ℕ} {heap heap' : Table Transaction}
    {tasks tasks' : List Task} (ps : List ℕ)
    → Frame spared trans heap tasks trans' heap' tasks'
    → All spared ps
    → All (Held cs ns trans heap) ps
    → All (Held cs ns trans' heap') ps
still_ready cs ns spared [] f apart h = tt
still_ready cs ns spared (q ∷ ps) f apart h =
    let held = h.0 in
    let kept = f.keeps q held.tran apart.0 held.here held.held in
    (
      record {
        tran = held.tran;
        here = kept.0;
        held = kept.1;
        committed = held.committed;
        numbered = held.numbered;
      },
      still_ready cs ns spared ps f apart.1 h.1,
    )

pub Fit-Frame :
    (cs ns : List ℕ) (spared : ℕ → Type 0) {trans trans' : Table ℕ} {heap heap' : Table Transaction}
    {tasks tasks' : List Task}
    → Frame spared trans heap tasks trans' heap' tasks'
    → All spared (pointers tasks)
    → Fit cs ns trans heap tasks
    → Fit cs ns trans' heap' tasks'
Fit-Frame cs ns spared {tasks = tasks} f apart fit = record {
  past_commit = λ p tran h k. fit.past_commit p tran (f.shrinks p tran h) k;
  past_number = λ p tran h k. fit.past_number p tran (f.shrinks p tran h) k;
  ready = rw f.queue (still_ready cs ns spared (pointers tasks) f apart fit.ready);
  once = rw f.queue fit.once;
}

find_or_new-Fit :
    (cs ns : List ℕ) (t : ℕ) (s : Dbs) → IsValid s → IsFit cs ns s → IsFit cs ns (find_or_new t s).1
unfolding find_or_new
find_or_new-Fit cs ns t s v f = elim (Option-cases (s.txid_trans t)) [
  | inl missing ↦ rw (find_or_new, missing) (Fit-new t s.next f missing v.fresh)
  | inr (p, e) ↦ rw (find_or_new, e) f
]

get_read_write_set-Fit :
    (cs ns : List ℕ) (conn : Conn) (msg : DbServiceMsg) (s : Dbs)
    → IsValid s
    → IsFit cs ns s
    → Safely (IsFit cs ns) (get_read_write_set conn msg s)
unfolding get_read_write_set store
get_read_write_set-Fit cs ns conn msg s v fit =
    let f = find_or_new-Found msg.txid s v in
    let s' = (find_or_new msg.txid s).1 in
    let p = (find_or_new msg.txid s).0 in
    let fit' = find_or_new-Fit cs ns msg.txid s v fit in
    let P = IsFit cs ns in
    rw (load-eq-ok p s' f.here) (
      Safely->>= Anything P (deref msg.read_set) _ (deref-Safely msg.read_set) λ rs _ _.
        Safely->>= Anything P (read_all rs) _ (read_all-Safely rs) λ reads _ _.
          Safely->>= Anything P (deref msg.write_set) _ (deref-Safely msg.write_set) λ ws _ _.
            Safely->>= Anything P (read_all ws) _ (read_all-Safely ws) λ writes _ _.
              Fit-store p f.tran _ fit' f.here refl (fit'.past_commit p f.tran f.here)
                (fit'.past_number p f.tran f.here))

on_data-Fit :
    (cs ns : List ℕ) (conn : Conn) (msg : DbServiceMsg) (s : Dbs)
    → IsValid s
    → IsFit cs ns s
    → Safely (IsFit cs ns) (on_data conn msg s)
unfolding on_data store enqueue
on_data-Fit cs ns conn msg s v fit =
    Safely->>= (λ s'. IsValid s' × IsFit cs ns s') (IsFit cs ns) (get_read_write_set conn msg s) _
      (Safely-both IsValid (IsFit cs ns) (get_read_write_set conn msg s)
        (get_read_write_set-Safely conn msg s v) (get_read_write_set-Fit cs ns conn msg s v fit))
      λ s' _ (v', fit').
        with_tran s'.txid_trans msg.txid s' (IsFit cs ns) _ (v'.unchecked msg.txid)
          λ p tran e e' own. elim (Bool-cases (tran.lsn == minus_one)) [
            | inl first ↦ rw first (
                Fit-enqueue (get_lsn_task msg.txid) refl (
                  Fit-store p tran _ fit' e' refl (fit'.past_commit p tran e')
                    λ k. absurd (false-ne-true k)))
            | inr again ↦ rw again fit'
          ]

on_commit-Fit :
    (cs ns : List ℕ) (msg : DbServiceMsg) (s : Dbs)
    → IsValid s
    → IsFit (msg.txid ∷ cs) ns s
    → Lacks msg.txid cs
    → Safely (IsFit cs ns) (on_commit msg s)
unfolding on_commit store enqueue
on_commit-Fit cs ns msg s v fit once =
    let fit' = Fit-later (msg.txid ∷ []) [] cs ns fit in
    with_tran s.txid_trans msg.txid s (IsFit cs ns) _ (v.unchecked msg.txid) λ p tran e e' own.
      elim (Bool-cases (slt 0 tran.lsn)) [
        | inl known ↦
            let new : Transaction = record tran {
              need_global_conflct = msg.need_global_conflict;
            } in
            let judged : Held cs ns s.txid_trans (insert s.heap p new) p = record {
              tran = new;
              here = rw (==_refl p) refl;
              held = rw own e;
              committed = rw own once;
              numbered = fit.past_number p tran e' known;
            } in
            rw known (
              Fit-judge p judged (commit-Lacks msg.txid p cs ns tran fit e' own) (
                Fit-store p tran new fit' e' refl (fit'.past_commit p tran e')
                  (fit'.past_number p tran e')))
        | inr not_yet ↦
            rw not_yet
              (Fit-store p tran _ fit' e' refl (λ k. rw own once) (fit'.past_number p tran e'))
      ]

chosen :
    (b : Bool) (P : Dbs → Type 0) (s t : Dbs)
    → (b ≡ true → P s)
    → (b ≡ false → P t)
    → Safely P (ok (if b then s else t))
chosen true P s t f g = f refl
chosen false P s t f g = g refl

on_lsn-Fit :
    (cs ns : List ℕ) (msg : DbtmMsg) (s : Dbs)
    → IsValid s
    → IsFit cs (msg.txid ∷ ns) s
    → Lacks msg.txid ns
    → Safely (IsFit cs ns) (on_lsn msg s)
unfolding on_lsn store enqueue
on_lsn-Fit cs ns msg s v fit once =
    let fit' = Fit-later [] (msg.txid ∷ []) cs ns fit in
    with_tran s.txid_trans msg.txid s (IsFit cs ns) _ (v.unchecked msg.txid) λ p tran e e' own.
      let new : Transaction = record tran { lsn = msg.lsn } in
      let stored =
        Fit-store p tran new fit' e' refl (fit'.past_commit p tran e') (λ k. rw own once) in
      chosen tran.already_commit (IsFit cs ns) _ _
        (λ waits.
          let judged : Held cs ns s.txid_trans (insert s.heap p new) p = record {
            tran = new;
            here = rw (==_refl p) refl;
            held = rw own e;
            committed = fit.past_commit p tran e' waits;
            numbered = rw own once;
          } in
          Fit-judge p judged (number-Lacks msg.txid p cs ns tran fit e' own) stored)
        (λ not_yet. stored)

pub on_message-Fit :
    (cs ns : List ℕ) (conn : Conn) (msg : RootMsg) (s : Dbs)
    → IsValid s
    → IsFit (commit_of msg ++ cs) (number_of msg ++ ns) s
    → Distinct (commit_of msg ++ cs)
    → Distinct (number_of msg ++ ns)
    → Safely (IsFit cs ns) (on_message conn msg s)
unfolding on_message enqueue
on_message-Fit cs ns conn (db_service_msg msg) s v f dc dn = elim (Bool-cases (msg.cmd == k_data)) [
  | inl a ↦ rw a (on_data-Fit cs ns conn msg s v (rw a at f))
  | inr a ↦ elim (Bool-cases (msg.cmd == k_commit)) [
    | inl b ↦ rw (a, b) (on_commit-Fit cs ns msg s v (rw (a, b) at f) ((rw (a, b) at dc).0))
    | inr b ↦ rw (a, b) (rw (a, b) at f)
  ]
]
on_message-Fit cs ns conn (dbtm_msg msg) s v f dc dn =
    elim (Bool-cases (msg.cmd == k_judge_conflit)) [
      | inl a ↦ rw a (Fit-enqueue solve_task refl (rw a at f))
      | inr a ↦ elim (Bool-cases (msg.cmd == k_lsn)) [
        | inl b ↦ rw (a, b) (on_lsn-Fit cs ns msg s v (rw (a, b) at f) ((rw (a, b) at dn).0))
        | inr b ↦
            let f' : IsFit cs ns s = rw (a, b) at f in
            elim (Bool-cases (msg.cmd == k_tran_success || msg.cmd == k_tran_fail)) [
              | inl c ↦
                  rw (a, b, c)
                    (Safely-map (ret_result msg.cmd msg.txid s)
                      (λ s' fr. Fit-Frame cs ns (λ q. Unit) fr (All-Unit (pointers s.tasks)) f')
                      (ret_result-Framed (λ q. Unit) msg.cmd msg.txid s v))
              | inr c ↦ rw (a, b, c) f'
            ]
      ]
    ]
on_message-Fit cs ns conn empty_msg s v f dc dn = f
on_message-Fit cs ns conn (gtm_msg m) s v f dc dn = f
on_message-Fit cs ns conn (app_msg m) s v f dc dn = f
on_message-Fit cs ns conn (dbtl_msg m) s v f dc dn = f
on_message-Fit cs ns conn (dbtl_ack_msg m) s v f dc dn = f
on_message-Fit cs ns conn (es_msg m) s v f dc dn = f
on_message-Fit cs ns conn (db_msg m) s v f dc dn = f
on_message-Fit cs ns conn (log_player_msg m) s v f dc dn = f
