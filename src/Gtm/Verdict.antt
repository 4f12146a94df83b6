-- ===== src/Gtm/Verdict.antt =====
-- The outcome of a vote, in one formula over all the votes on a transaction.
use grit.Common.{
  ◌==◌, if◌then◌else◌, ==_refl, Option-cases, eq-cases, eq_false, length, Returns, sign_bit, ℕ, suc,
  ◌+◌, ◌-◌, ◌≤◌, ◌<◌, ◌≡◌, refl, sym, ap, subst, ◌∙◌, ◌≢◌, inl, inr, Bool, false, ◌||◌, Option,
  none, some, List, [], ◌∷◌, ◌++◌, map, append_assoc, append-nil, arith,
}
use grit.Net.{GtmMsg, Conn}
use grit.Gtm.{TxidInfo, Gtm}
use grit.Gtm.Ballot.{
  judge_all, answers, ballots, told, cast_vote, voted, judge_conflict-voted, voted-Judges,
}

unfoldable pub any_conflict : List (Conn × Bool) → Bool
any_conflict [] = false
any_conflict ((conn, b) ∷ bs) = b || any_conflict bs

unfoldable pub voters : List (Conn × Bool) → List Conn
voters [] = []
voters ((conn, b) ∷ bs) = conn ∷ voters bs

-- With the last vote every voter, in the order of the votes, is told whether one of them met a
-- conflict, and the transaction is forgotten. Before it the votes are collected and nobody is told.
unfoldable pub tally : Option TxidInfo → List (Conn × Bool) → Option TxidInfo × List (Conn × Bool)
unfolding any_conflict voters
tally none bs = (none, [])
tally (some info) bs =
    let conns = info.conn_list ++ voters bs in
    let conflict = info.is_conflict || any_conflict bs in
    if length bs == info.server_num then (none, map (λ c. (c, conflict)) conns) else (
      some (record {
        server_num = info.server_num - length bs;
        conn_list = conns;
        is_conflict = conflict;
      }),
      [],
    )

-- How many votes a transaction still waits for.
abbrev pub awaited : Option TxidInfo → ℕ
awaited none = 0
awaited (some info) = info.server_num

-- Each transaction in the table waits for at least one vote, and for fewer than 2 ^ 31.
abbrev pub IsOpen : Gtm → Type 0
IsOpen g =
    (t : ℕ) (info : TxidInfo)
    → g.table t ≡ some info
    → (0 < info.server_num) × (info.server_num < sign_bit)

or_assoc : (a b c : Bool) → (a || b || c) ≡ (a || (b || c))
or_assoc a b c = ground arith

tally-cast_vote :
    (info : TxidInfo) (conn : Conn) (b : Bool) (bs : List (Conn × Bool))
    → 0 < info.server_num
    → info.server_num < sign_bit
    → suc (length bs) ≤ info.server_num
    → ((tally (cast_vote info conn b).0 bs).0 ≡ (tally (some info) ((conn, b) ∷ bs)).0)
      × ((cast_vote info conn b).1 ++ (tally (cast_vote info conn b).0 bs).1
          ≡ (tally (some info) ((conn, b) ∷ bs)).1)
unfolding tally cast_vote
tally-cast_vote info conn b [] pos small h = ground (
  arith,
  append-nil (info.conn_list ++ conn ∷ []),
  append-nil (told (info.conn_list ++ conn ∷ []) (info.is_conflict || b)),
)
tally-cast_vote info conn b ((d, e) ∷ bs) pos small h = ground (
  arith,
  append_assoc info.conn_list (conn ∷ []) (d ∷ voters bs),
  or_assoc info.is_conflict b (e || any_conflict bs),
)

tally-nil : (info : TxidInfo) → 0 < info.server_num → tally (some info) [] ≡ (some info, [])
unfolding tally
tally-nil info pos = ground (arith, append-nil info.conn_list)

pub tally-open :
    (o : Option TxidInfo)
    → ((info : TxidInfo) → o ≡ some info → (0 < info.server_num) × (info.server_num < sign_bit))
    → tally o [] ≡ (o, [])
unfolding tally
tally-open none h = refl
tally-open (some info) h = tally-nil info (h info refl).0

awaited-cast_vote :
    (info : TxidInfo) (conn : Conn) (b : Bool)
    → 0 < info.server_num
    → info.server_num < sign_bit
    → awaited (cast_vote info conn b).0 + 1 ≡ info.server_num
unfolding cast_vote
awaited-cast_vote info conn b pos small = ground arith

cast_vote-open :
    (info : TxidInfo) (conn : Conn) (b : Bool) (i : TxidInfo)
    → 0 < info.server_num
    → info.server_num < sign_bit
    → (cast_vote info conn b).0 ≡ some i
    → (0 < i.server_num) × (i.server_num < sign_bit)
unfolding cast_vote
cast_vote-open info conn b i pos small e = ground arith

-- The table and the answers after the messages, for every transaction.
pub record Settles (g : Gtm) (votes : List (Conn × GtmMsg)) (g' : Gtm) : Type 0 where
  pub left : (t : ℕ) → g'.table t ≡ (tally (g.table t) (ballots t votes)).0
  pub heard :
      (t : ℕ) → answers t g'.outbox ≡ answers t g.outbox ++ (tally (g.table t) (ballots t votes)).1

module _ (conn : Conn) (m : GtmMsg) (info : TxidInfo) (g : Gtm) (e : g.table m.txid ≡ some info)
    (pos : 0 < info.server_num) (small : info.server_num < sign_bit) where
  voted-same : (voted conn m info g).table m.txid ≡ (cast_vote info conn m.is_local_conflict).0
  voted-same = rw ((voted-Judges conn m info g).kept m.txid, ==_refl m.txid) refl

  voted-apart : (t : ℕ) → m.txid ≢ t → (voted conn m info g).table t ≡ g.table t
  voted-apart t apart = rw ((voted-Judges conn m info g).kept t, eq_false apart) refl

  voted-IsOpen : IsOpen g → IsOpen (voted conn m info g)
  voted-IsOpen o t i e₁ = elim (eq-cases m.txid t) [
    | inl same ↦
        cast_vote-open info conn m.is_local_conflict i pos small
          (sym voted-same ∙ subst (λ u. (voted conn m info g).table u ≡ some i) (sym same) e₁)
    | inr apart ↦ o t i (sym (voted-apart t apart) ∙ e₁)
  ]

  voted-awaited :
      (votes : List (Conn × GtmMsg))
      → ((t : ℕ) → length (ballots t ((conn, m) ∷ votes)) ≤ awaited (g.table t))
      → (t : ℕ) → length (ballots t votes) ≤ awaited ((voted conn m info g).table t)
  unfolding ballots
  voted-awaited votes h t = elim (eq-cases m.txid t) [
    | inl same ↦
        rw (← same, voted-same)
          (omega (
            arith,
            awaited-cast_vote info conn m.is_local_conflict pos small,
            rw (e, ==_refl m.txid) at (h m.txid),
          ))
    | inr apart ↦ rw (voted-apart t apart) (rw (eq_false apart) at (h t))
  ]

  voted-Settles :
      (votes : List (Conn × GtmMsg)) (g' : Gtm)
      → ((t : ℕ) → length (ballots t ((conn, m) ∷ votes)) ≤ awaited (g.table t))
      → Settles (voted conn m info g) votes g'
      → Settles g ((conn, m) ∷ votes) g'
  unfolding ballots
  voted-Settles votes g' h rest =
      let b = m.is_local_conflict in
      let all_here : suc (length (ballots m.txid votes)) ≤ info.server_num =
        rw (e, ==_refl m.txid) at (h m.txid) in
      let (kept, said) = tally-cast_vote info conn b (ballots m.txid votes) pos small all_here in
      record {
        left = λ t. elim (eq-cases m.txid t) [
          | inl same ↦
              subst (λ u. g'.table u ≡ (tally (g.table u) (ballots u ((conn, m) ∷ votes))).0) same
                (rw (==_refl m.txid, e) (rest.left m.txid ∙ rw voted-same kept))
          | inr apart ↦ rw (eq_false apart) (rest.left t ∙ rw (voted-apart t apart) refl)
        ];
        heard = λ t. elim (eq-cases m.txid t) [
          | inl same ↦
              subst
                (λ u.
                  answers u g'.outbox
                  ≡ answers u g.outbox ++ (tally (g.table u) (ballots u ((conn, m) ∷ votes))).1)
                same
                (rw
                  (
                    ==_refl m.txid,
                    e,
                    rest.heard m.txid,
                    (voted-Judges conn m info g).said m.txid,
                    voted-same,
                    ==_refl m.txid,
                  )
                  (append_assoc (answers m.txid g.outbox) _ _
                    ∙ ap (◌++◌ (answers m.txid g.outbox)) said))
          | inr apart ↦
              rw
                (
                  eq_false apart,
                  rest.heard t,
                  (voted-Judges conn m info g).said t,
                  eq_false apart,
                  voted-apart t apart,
                  append-nil (answers t g.outbox),
                )
                refl
        ];
      }

-- Let every transaction in the table wait for at least one vote and for fewer than 2 ^ 31. Votes on
-- any transactions, interleaved in any way, of which no transaction gets more than it waits for:
-- `judgeConflict` handles them all, and each transaction has the outcome that the tally of its own
-- votes gives.
pub judge_all-Settles :
    (votes : List (Conn × GtmMsg)) (g : Gtm)
    → IsOpen g
    → ((t : ℕ) → length (ballots t votes) ≤ awaited (g.table t))
    → Returns (judge_all votes g) (Settles g votes)
unfolding judge_all ballots
judge_all-Settles [] g o h = (
  g,
  refl,
  record {
    left = λ t. rw (tally-open (g.table t) (o t));
    heard = λ t. rw (tally-open (g.table t) (o t)) (sym (append-nil (answers t g.outbox)));
  },
)
judge_all-Settles ((conn, m) ∷ votes) g o h = elim (Option-cases (g.table m.txid)) [
  | inl missing ↦ absurd (ground (arith, rw (==_refl m.txid) at (h m.txid)))
  | inr (info, e) ↦
      let (pos, small) = o m.txid info e in
      let (g', run, rest) =
        judge_all-Settles votes (voted conn m info g) (voted-IsOpen conn m info g e pos small o)
          (voted-awaited conn m info g e pos small votes h) in
      (
        g',
        rw (judge_conflict-voted conn m info g e) run,
        voted-Settles conn m info g e pos small votes g' h rest,
      )
]
