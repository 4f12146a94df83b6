-- ===== src/Gtm/Round.antt =====
-- A transaction from the request for its id to the verdict on it.
use grit.Common.{
  ◌==◌, if◌then◌else◌, ==_refl, eq-cases, ltb-true, eq_true, eq_false, length, All, Returns,
  sign_bit, to_int, Text, ℕ, suc, ◌≤◌, ◌<◌, ◌≡◌, refl, sym, ap, subst, ◌∙◌, ◌≢◌, inl, inr, Bool,
  false, none, some, List, [], ◌∷◌, ◌++◌, map, append-nil, arith,
}
use grit.Net.{GtmMsg, Conn}
use grit.Gtm.{TxidInfo, Gtm, txid_info, get_txid}
use grit.Gtm.Ballot.{judge_all, answers, answers-append, ballots}
use grit.Gtm.Verdict.{any_conflict, voters, tally, tally-open, awaited, IsOpen, judge_all-Settles}

abbrev pub On : ℕ → Conn × GtmMsg → Type 0
On t vote = vote.1.txid ≡ t

ballots_here :
    (t : ℕ) (votes : List (Conn × GtmMsg))
    → All (On t) votes
    → length (ballots t votes) ≡ length votes
unfolding ballots
ballots_here t [] h = refl
ballots_here t ((conn, m) ∷ votes) h = rw (eq_true h.0) (ap suc (ballots_here t votes h.1))

ballots_elsewhere :
    (t u : ℕ) (votes : List (Conn × GtmMsg)) → t ≢ u → All (On t) votes → ballots u votes ≡ []
unfolding ballots
ballots_elsewhere t u [] n h = refl
ballots_elsewhere t u ((conn, m) ∷ votes) n h =
    let apart : m.txid ≢ u = omega (arith, h.0) in
    rw (eq_false apart) (ballots_elsewhere t u votes n h.1)

-- The record of a transaction with several servers.
get_txid-table :
    (conn : Conn) (type : Text) (g : Gtm)
    → 1 < length (g.trans_info type)
    → (t : ℕ)
    → (get_txid conn type g).table t
      ≡ (if g.txid == t then some (txid_info (length (g.trans_info type))) else g.table t)
unfolding get_txid
get_txid-table conn type g h t = rw (ltb-true h) refl

get_txid-answers :
    (conn : Conn) (type : Text) (g : Gtm) (t : ℕ)
    → answers t (get_txid conn type g).outbox ≡ answers t g.outbox
unfolding get_txid answers
get_txid-answers conn type g t = answers-append t g.outbox _ ∙ append-nil (answers t g.outbox)

fresh_info : ℕ → TxidInfo
fresh_info n = record { server_num = n; conn_list = []; is_conflict = false }

txid_info_lem : (n : ℕ) → n < sign_bit → txid_info n ≡ fresh_info n
unfolding txid_info fresh_info
txid_info_lem n h =
    let e : to_int n ≡ n = omega arith in
    ap (λ (k : ℕ). record { server_num = k; conn_list = []; is_conflict = false }) e

fresh_info-open :
    (n : ℕ) (i : TxidInfo)
    → 0 < n
    → n < sign_bit
    → some (fresh_info n) ≡ some i
    → (0 < i.server_num) × (i.server_num < sign_bit)
unfolding fresh_info
fresh_info-open n i pos small e = ground arith

tally-full :
    (n : ℕ) (bs : List (Conn × Bool))
    → length bs ≡ n
    → tally (some (fresh_info n)) bs ≡ (none, map (λ c. (c, any_conflict bs)) (voters bs))
unfolding tally fresh_info
tally-full n bs e = rw (eq_true e) refl

awaited_fresh : (n : ℕ) → awaited (some (fresh_info n)) ≡ n
unfolding fresh_info
awaited_fresh n = refl

-- Let every transaction in the table wait for at least one vote and for fewer than 2 ^ 31. A
-- transaction of a type with `n` servers, more than one and fewer than 2 ^ 31, is handed an id.
-- When `n` votes on that id have come in, each voter is told whether any of them met a conflict, in
-- the order of the votes; the id is forgotten, and no other transaction hears anything.
pub judge_all-get_txid :
    (conn : Conn) (type : Text) (g : Gtm) (votes : List (Conn × GtmMsg))
    → IsOpen g
    → 1 < length (g.trans_info type)
    → length (g.trans_info type) < sign_bit
    → length votes ≡ length (g.trans_info type)
    → All (On g.txid) votes
    → Returns (judge_all votes (get_txid conn type g)) λ g'.
      (g'.table g.txid ≡ none)
      × (answers g.txid g'.outbox
          ≡ answers g.txid g.outbox
            ++ map (λ c. (c, any_conflict (ballots g.txid votes))) (voters (ballots g.txid votes)))
      × ((t : ℕ) → g.txid ≢ t → answers t g'.outbox ≡ answers t g.outbox)
judge_all-get_txid conn type g votes o several small all_voted here =
    let g₁ = get_txid conn type g in
    let n = length (g.trans_info type) in
    let table = get_txid-table conn type g several in
    let own : g₁.table g.txid ≡ some (fresh_info n) =
      rw (table g.txid, ==_refl g.txid, txid_info_lem n small) refl in
    let kept : (t : ℕ) → g.txid ≢ t → g₁.table t ≡ g.table t =
      λ t apart. rw (table t, eq_false apart) refl in
    let o₁ : IsOpen g₁ = λ t i e. elim (eq-cases g.txid t) [
      | inl same ↦
          fresh_info-open n i (omega arith) small
            (sym own ∙ subst (λ u. g₁.table u ≡ some i) (sym same) e)
      | inr apart ↦ o t i (sym (kept t apart) ∙ e)
    ] in
    let h₁ : (t : ℕ) → length (ballots t votes) ≤ awaited (g₁.table t) = λ t.
      elim (eq-cases g.txid t) [
        | inl same ↦
            subst (λ u. length (ballots u votes) ≤ awaited (g₁.table u)) same
              (rw (own, awaited_fresh n) (omega (arith, ballots_here g.txid votes here)))
        | inr apart ↦ rw (ballots_elsewhere g.txid t votes apart here) (omega arith)
      ] in
    let (g', run, settled) = judge_all-Settles votes g₁ o₁ h₁ in
    let full = tally-full n (ballots g.txid votes) (ballots_here g.txid votes here ∙ all_voted) in
    (
      g',
      run,
      (
        rw (settled.left g.txid, own, full) refl,
        rw (settled.heard g.txid, own, full, get_txid-answers conn type g g.txid) refl,
        λ t apart.
            rw
              (
                settled.heard t,
                kept t apart,
                ballots_elsewhere g.txid t votes apart here,
                tally-open (g.table t) (o t),
                get_txid-answers conn type g t,
              )
              (append-nil (answers t g.outbox)),
      ),
    )
