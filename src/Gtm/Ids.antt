-- ===== src/Gtm/Ids.antt =====
-- The ids that are handed out in a whole run, with votes and other messages in between.
use grit.Common.{
  run_all, ◌==◌, if◌then◌else◌, Option-cases, eq-cases, eq_true, eq_false, length, ok-injective,
  ok-ne-fault, Outcome-cases, word_mod, incr, Text, ℕ, suc, ◌+◌, ◌%◌, ◌<◌, ◌≡◌, refl, sym, ap,
  subst, ◌∙◌, ◌≢◌, inl, inr, Option, none, some, List, [], ◌∷◌, ◌++◌, map, append_assoc, append-nil,
  arith, ok,
}
use grit.Net.{
  GtmMsg, DbtmMsg, RootMsg, app_msg, dbtm_msg, gtm_msg, create_ip_and_port, create_app_msg, Conn,
  Sent,
}
use grit.Net.HeaderCmd.{k_txid, k_get_txid, k_judge_conflit}
use grit.Gtm.{IpandPort, TxidInfo, Gtm, get_txid, judge_conflict, on_message}
use grit.Gtm.Ballot.{voted, judge_conflict-voted, voted-trans_info, voted-txid, voted-outbox}
use grit.Gtm.Transactions.{handed_out, handed_out-later}
use grit.Gtm.Runs.{serve}

-- The requests for ids among the messages.
unfoldable pub request : Conn → Option Text → List (Conn × Text)
request conn none = []
request conn (some type) = (conn, type) ∷ []

unfoldable pub requests_of : Conn → RootMsg → List (Conn × Text)
unfolding request
requests_of conn (gtm_msg m) = if m.cmd == k_get_txid then request conn m.trans_type else []
requests_of conn _ = []

unfoldable pub requests : List (Conn × RootMsg) → List (Conn × Text)
unfolding requests_of
requests [] = []
requests ((conn, m) ∷ ms) = requests_of conn m ++ requests ms

-- The answers to them among the messages that have been sent.
unfoldable pub app_answers : List Sent → List Sent
app_answers [] = []
app_answers ((conn, app_msg m) ∷ sent) = (conn, app_msg m) ∷ app_answers sent
app_answers ((conn, _) ∷ sent) = app_answers sent

app_answers-append : (xs ys : List Sent) → app_answers (xs ++ ys) ≡ app_answers xs ++ app_answers ys
unfolding app_answers
app_answers-append [] ys = refl
app_answers-append ((conn, app_msg m) ∷ xs) ys =
    ap (◌∷◌ (conn, app_msg m)) (app_answers-append xs ys)
app_answers-append ((conn, _) ∷ xs) ys = app_answers-append xs ys

app_answers-verdict :
    (verdict : DbtmMsg) (conns : List Conn)
    → app_answers (map (λ c. (c, dbtm_msg verdict)) conns) ≡ []
unfolding app_answers
app_answers-verdict verdict [] = refl
app_answers-verdict verdict (c ∷ conns) = app_answers-verdict verdict conns

-- What a message that is handled does, as far as ids are concerned.
record Serves (conn : Conn) (m : RootMsg) (g g' : Gtm) : Type 0 where
  same_types : g'.trans_info ≡ g.trans_info
  next : g'.txid ≡ (g.txid + length (requests_of conn m)) % word_mod
  answered :
      app_answers g'.outbox
      ≡ app_answers g.outbox ++ handed_out g.trans_info g.txid 0 (requests_of conn m)

voted-Serves :
    (conn : Conn) (m : GtmMsg) (info : TxidInfo) (g : Gtm)
    → g.txid < word_mod
    → m.cmd ≢ k_get_txid
    → Serves conn (gtm_msg m) g (voted conn m info g)
unfolding requests_of handed_out
voted-Serves conn m info g small other =
    let (conns, verdict, said) = voted-outbox conn m info g in
    record {
      same_types = voted-trans_info conn m info g;
      next = voted-txid conn m info g ∙ rw (eq_false other) (omega (arith, small));
      answered =
          rw (said, eq_false other)
            (app_answers-append g.outbox _
              ∙ ap (◌++◌ (app_answers g.outbox)) (app_answers-verdict verdict conns));
    }

get_txid-Serves :
    (conn : Conn) (m : GtmMsg) (type : Text) (g : Gtm)
    → g.txid < word_mod
    → m.cmd ≡ k_get_txid
    → m.trans_type ≡ some type
    → Serves conn (gtm_msg m) g (get_txid conn type g)
unfolding requests_of request handed_out get_txid app_answers
get_txid-Serves conn m type g small asks e =
    let id : (g.txid + 0) % word_mod ≡ g.txid = omega (arith, small) in
    record {
      same_types = refl;
      next = rw (eq_true asks, e) refl;
      answered = rw (eq_true asks, e, id) (app_answers-append g.outbox _);
    }

ignored-Serves :
    (conn : Conn) (m : GtmMsg) (g : Gtm)
    → g.txid < word_mod
    → m.cmd ≢ k_get_txid
    → Serves conn (gtm_msg m) g g
unfolding requests_of handed_out
ignored-Serves conn m g small other = record {
  same_types = refl;
  next = rw (eq_false other) (omega (arith, small));
  answered = rw (eq_false other) (sym (append-nil (app_answers g.outbox)));
}

serve-Serves :
    (conn : Conn) (m : RootMsg) (g g' : Gtm)
    → g.txid < word_mod
    → on_message conn m g ≡ ok g'
    → Serves conn m g g'
unfolding on_message judge_conflict
serve-Serves conn (gtm_msg m) g g' small run = elim (eq-cases m.cmd k_get_txid) [
  | inl asks ↦ elim (Option-cases m.trans_type) [
    | inl no_type ↦ absurd (ok-ne-fault (sym (rw (eq_true asks, no_type) at run)))
    | inr (type, e) ↦
        subst (Serves conn (gtm_msg m) g) (ok-injective (rw (eq_true asks, e) at run))
          (get_txid-Serves conn m type g small asks e)
  ]
  | inr other ↦ elim (eq-cases m.cmd k_judge_conflit) [
    | inl votes ↦ elim (Option-cases (g.table m.txid)) [
      | inl missing ↦
          absurd (ok-ne-fault (sym (rw (eq_false other, eq_true votes, missing) at run)))
      | inr (info, e) ↦
          subst (Serves conn (gtm_msg m) g)
            (ok-injective (
              sym (judge_conflict-voted conn m info g e)
              ∙ (rw (eq_false other, eq_true votes) at run)))
            (voted-Serves conn m info g small other)
    ]
    | inr ignored ↦
        subst (Serves conn (gtm_msg m) g)
          (ok-injective (rw (eq_false other, eq_false ignored) at run))
          (ignored-Serves conn m g small other)
  ]
]
serve-Serves conn _ g g' small run = absurd (ok-ne-fault (sym run))

handed_out-append :
    (types : Text → List IpandPort) (first k : ℕ) (rs ts : List (Conn × Text))
    → first < word_mod
    → handed_out types first k (rs ++ ts)
      ≡ handed_out types first k rs ++ handed_out types ((first + length rs) % word_mod) k ts
unfolding handed_out
handed_out-append types first k [] ts small =
    let e : (first + 0) % word_mod ≡ first = omega (arith, small) in rw e refl
handed_out-append types first k ((conn, type) ∷ rs) ts small =
    let y = (first + length rs) % word_mod in
    let e : incr y ≡ (first + suc (length rs)) % word_mod = omega arith in
    let answered =
      create_app_msg k_txid ((first + k) % word_mod)
        (some (map (λ e. create_ip_and_port (some e.ip) e.port) (types type))) in
    ap (λ (l : List Sent). (conn, app_msg answered) ∷ l)
      (handed_out-append types first (suc k) rs ts small
        ∙ ap (λ (l : List Sent). handed_out types first (suc k) rs ++ l)
            (sym (handed_out-later types y k ts) ∙ ap (λ n. handed_out types n k ts) e))

-- Where a run of the manager returns, the requests for ids among its messages, and only these, have
-- been answered, in their order, with consecutive ids modulo 2 ^ 32 and the servers of the types
-- asked for, whatever votes and other messages came in between.
pub app_answers-serve :
    (ms : List (Conn × RootMsg)) (g g' : Gtm)
    → g.txid < word_mod
    → run_all serve ms g ≡ ok g'
    → app_answers g'.outbox ≡ app_answers g.outbox ++ handed_out g.trans_info g.txid 0 (requests ms)
unfolding run_all serve requests handed_out
app_answers-serve [] g g' small run =
    ap (λ (h : Gtm). app_answers h.outbox) (sym (ok-injective run))
    ∙ sym (append-nil (app_answers g.outbox))
app_answers-serve ((conn, m) ∷ ms) g g' small run = elim (Outcome-cases (on_message conn m g)) [
  | inl (g₁, first, _) ↦
      let d = serve-Serves conn m g g₁ small first in
      let asked = requests_of conn m in
      let small₁ : g₁.txid < word_mod = rw d.next (omega arith) in
      app_answers-serve ms g₁ g' small₁ (rw first at run)
      ∙ rw (d.same_types, d.next, d.answered)
          (append_assoc (app_answers g.outbox) (handed_out g.trans_info g.txid 0 asked) _
            ∙ ap (λ (l : List Sent). app_answers g.outbox ++ l)
                (sym (handed_out-append g.trans_info g.txid 0 asked (requests ms) small)))
  | inr (f, halt) ↦ absurd (ok-ne-fault (sym (rw halt at run)))
]
