-- ===== src/DbService/Fit.antt =====
-- The transactions that wait to be judged, while messages come in: which of them can still be
-- committed or numbered, and that none is judged twice.
use grit.Common.{
  eq-cases, eq_true, eq_false, false-ne-true, All, All-append, All-map, All-append_right, Lacks,
  Distinct, Distinct-snoc, some-injective, none-ne-some, Table, insert, slt, ℕ, ◌<◌, ◌≡◌, refl, sym,
  ap, subst, ◌∙◌, ◌≢◌, inl, inr, true, none, some, List, [], ◌∷◌, ◌++◌, append-nil, arith,
}
use grit.DbService.{
  Transaction, transaction, Task, get_lsn_task, judge_local_conflict_task, solve_task,
}

-- The transactions that the tasks of a queue judge.
abbrev pub pointers : List Task → List ℕ
pointers [] = []
pointers (judge_local_conflict_task p ∷ ts) = p ∷ pointers ts
pointers (_ ∷ ts) = pointers ts

pub pointers-append : (ts us : List Task) → pointers (ts ++ us) ≡ pointers ts ++ pointers us
pointers-append [] us = refl
pointers-append (judge_local_conflict_task p ∷ ts) us = ap (◌∷◌ p) (pointers-append ts us)
pointers-append (get_lsn_task t ∷ ts) us = pointers-append ts us
pointers-append (solve_task ∷ ts) us = pointers-append ts us

-- `cs` are the transactions that are still to be committed, `ns` those still to be numbered.
module _ (cs ns : List ℕ) where
  -- A transaction that is to be judged.
  pub record Held (trans : Table ℕ) (heap : Table Transaction) (p : ℕ) : Type 0 where
    pub tran : Transaction
    pub here : heap p ≡ some tran
    pub held : trans tran.txid ≡ some p
    pub committed : Lacks tran.txid cs
    pub numbered : Lacks tran.txid ns

  pub record Fit (trans : Table ℕ) (heap : Table Transaction) (tasks : List Task) : Type 0 where
    pub past_commit :
        (p : ℕ) (tran : Transaction)
        → heap p ≡ some tran
        → tran.already_commit ≡ true
        → Lacks tran.txid cs
    pub past_number :
        (p : ℕ) (tran : Transaction)
        → heap p ≡ some tran
        → slt 0 tran.lsn ≡ true
        → Lacks tran.txid ns
    pub ready : All (Held trans heap) (pointers tasks)
    pub once : Distinct (pointers tasks)

module _ {cs ns : List ℕ} {trans : Table ℕ} {heap : Table Transaction} {tasks : List Task} where
  pub Fit-store :
      (p : ℕ) (old new : Transaction)
      → Fit cs ns trans heap tasks
      → heap p ≡ some old
      → new.txid ≡ old.txid
      → (new.already_commit ≡ true → Lacks new.txid cs)
      → (slt 0 new.lsn ≡ true → Lacks new.txid ns)
      → Fit cs ns trans (insert heap p new) tasks
  Fit-store p old new f e same no_commit no_number = record {
    past_commit = λ q tran h k. elim (eq-cases p q) [
      | inl here ↦
          let e' : new ≡ tran = some-injective (rw (eq_true here) at h) in
          subst (λ (x : Transaction). x.already_commit ≡ true → Lacks x.txid cs) e' no_commit k
      | inr away ↦ f.past_commit q tran (rw (eq_false away) at h) k
    ];
    past_number = λ q tran h k. elim (eq-cases p q) [
      | inl here ↦
          let e' : new ≡ tran = some-injective (rw (eq_true here) at h) in
          subst (λ (x : Transaction). slt 0 x.lsn ≡ true → Lacks x.txid ns) e' no_number k
      | inr away ↦ f.past_number q tran (rw (eq_false away) at h) k
    ];
    ready =
        All-map (Held cs ns trans heap) (Held cs ns trans (insert heap p new)) (pointers tasks)
          (λ q h. elim (eq-cases p q) [
            | inl here ↦
                let same' : h.tran.txid ≡ new.txid =
                  ap (λ (x : Transaction). x.txid)
                    (some-injective (sym h.here ∙ subst (λ x. heap x ≡ some old) here e))
                  ∙ sym same in
                record {
                  tran = new;
                  here = rw (eq_true here) refl;
                  held = subst (λ x. trans x ≡ some q) same' h.held;
                  committed = subst (λ x. Lacks x cs) same' h.committed;
                  numbered = subst (λ x. Lacks x ns) same' h.numbered;
                }
            | inr away ↦ record {
              tran = h.tran;
              here = rw (eq_false away) h.here;
              held = h.held;
              committed = h.committed;
              numbered = h.numbered;
            }
          ])
          f.ready;
    once = f.once;
  }

  pub Fit-new :
      (t next : ℕ)
      → Fit cs ns trans heap tasks
      → trans t ≡ none
      → ((p : ℕ) (tran : Transaction) → heap p ≡ some tran → p < next)
      → Fit cs ns (insert trans t next) (insert heap next (transaction t)) tasks
  unfolding transaction
  Fit-new t next f absent fresh = record {
    past_commit = λ q tran h k. elim (eq-cases next q) [
      | inl here ↦
          let e : transaction t ≡ tran = some-injective (rw (eq_true here) at h) in
          absurd (false-ne-true (ap (λ (x : Transaction). x.already_commit) e ∙ k))
      | inr away ↦ f.past_commit q tran (rw (eq_false away) at h) k
    ];
    past_number = λ q tran h k. elim (eq-cases next q) [
      | inl here ↦
          let e : transaction t ≡ tran = some-injective (rw (eq_true here) at h) in
          absurd (false-ne-true (ap (λ (x : Transaction). slt 0 x.lsn) e ∙ k))
      | inr away ↦ f.past_number q tran (rw (eq_false away) at h) k
    ];
    ready =
        All-map (Held cs ns trans heap)
          (Held cs ns (insert trans t next) (insert heap next (transaction t))) (pointers tasks)
          (λ q h.
            let away : next ≢ q = omega (arith, fresh q h.tran h.here) in
            let other : t ≢ h.tran.txid =
              λ e. none-ne-some (sym absent ∙ subst (λ x. trans x ≡ some q) (sym e) h.held) in
            record {
              tran = h.tran;
              here = rw (eq_false away) h.here;
              held = rw (eq_false other) h.held;
              committed = h.committed;
              numbered = h.numbered;
            })
          f.ready;
    once = f.once;
  }

  pub Fit-enqueue :
      (task : Task)
      → pointers (task ∷ []) ≡ []
      → Fit cs ns trans heap tasks
      → Fit cs ns trans heap (tasks ++ task ∷ [])
  Fit-enqueue task quiet f =
      let same : pointers (tasks ++ task ∷ []) ≡ pointers tasks =
        pointers-append tasks (task ∷ [])
        ∙ ap (λ ps. pointers tasks ++ ps) quiet
        ∙ append-nil (pointers tasks) in
      record {
        past_commit = f.past_commit;
        past_number = f.past_number;
        ready = rw same f.ready;
        once = rw same f.once;
      }

  pub Fit-judge :
      (p : ℕ)
      → Held cs ns trans heap p
      → Lacks p (pointers tasks)
      → Fit cs ns trans heap tasks
      → Fit cs ns trans heap (tasks ++ judge_local_conflict_task p ∷ [])
  Fit-judge p h new f =
      let grown : pointers (tasks ++ judge_local_conflict_task p ∷ []) ≡ pointers tasks ++ p ∷ [] =
        pointers-append tasks (judge_local_conflict_task p ∷ []) in
      record {
        past_commit = f.past_commit;
        past_number = f.past_number;
        ready =
            rw grown (All-append (Held cs ns trans heap) (pointers tasks) (p ∷ []) f.ready (h, tt));
        once = rw grown (Distinct-snoc (pointers tasks) p new f.once);
      }

-- What has happened is not to come.
pub Fit-later :
    (old_cs old_ns cs ns : List ℕ) {trans : Table ℕ} {heap : Table Transaction} {tasks : List Task}
    → Fit (old_cs ++ cs) (old_ns ++ ns) trans heap tasks
    → Fit cs ns trans heap tasks
Fit-later old_cs old_ns cs ns {trans} {heap} {tasks} f = record {
  past_commit = λ p tran h k. All-append_right _ old_cs cs (f.past_commit p tran h k);
  past_number = λ p tran h k. All-append_right _ old_ns ns (f.past_number p tran h k);
  ready =
      All-map (Held (old_cs ++ cs) (old_ns ++ ns) trans heap) (Held cs ns trans heap)
        (pointers tasks)
        (λ q h. record {
          tran = h.tran;
          here = h.here;
          held = h.held;
          committed = All-append_right _ old_cs cs h.committed;
          numbered = All-append_right _ old_ns ns h.numbered;
        })
        f.ready;
  once = f.once;
}

-- A transaction that is still to be committed, or still to be numbered, is not judged yet.
pub commit-Lacks :
    (t p : ℕ) (cs ns : List ℕ) (tran : Transaction) {trans : Table ℕ} {heap : Table Transaction}
    {tasks : List Task}
    → Fit (t ∷ cs) ns trans heap tasks
    → heap p ≡ some tran
    → tran.txid ≡ t
    → Lacks p (pointers tasks)
commit-Lacks t p cs ns tran {trans} {heap} {tasks} f e own =
    All-map (Held (t ∷ cs) ns trans heap) (λ q. q ≢ p) (pointers tasks)
      (λ q h same.
        let same_tran : h.tran ≡ tran =
          some-injective (sym h.here ∙ subst (λ x. heap x ≡ some tran) (sym same) e) in
        h.committed.0 (sym (ap (λ (x : Transaction). x.txid) same_tran ∙ own)))
      f.ready

pub number-Lacks :
    (t p : ℕ) (cs ns : List ℕ) (tran : Transaction) {trans : Table ℕ} {heap : Table Transaction}
    {tasks : List Task}
    → Fit cs (t ∷ ns) trans heap tasks
    → heap p ≡ some tran
    → tran.txid ≡ t
    → Lacks p (pointers tasks)
number-Lacks t p cs ns tran {trans} {heap} {tasks} f e own =
    All-map (Held cs (t ∷ ns) trans heap) (λ q. q ≢ p) (pointers tasks)
      (λ q h same.
        let same_tran : h.tran ≡ tran =
          some-injective (sym h.here ∙ subst (λ x. heap x ≡ some tran) (sym same) e) in
        h.numbered.0 (sym (ap (λ (x : Transaction). x.txid) same_tran ∙ own)))
      f.ready
