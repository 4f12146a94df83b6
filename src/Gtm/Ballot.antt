-- ===== src/Gtm/Ballot.antt =====
-- `judgeConflict` as a vote: each database service of a transaction votes once, in any order and
-- between the votes of other transactions, and all are told whether one of them met a conflict.
use grit.Common.{
  ◌==◌, if◌then◌else◌, Bool-cases, Outcome, ◌>>=◌, insert, erase, decr, ℕ, ◌≡◌, refl, sym, ap, ◌∙◌,
  inl, inr, Bool, ◌&&◌, ◌||◌, Option, none, some, List, [], ◌∷◌, ◌++◌, map, append_assoc,
  append-nil, arith, ok,
}
use grit.Net.{GtmMsg, DbtmMsg, RootMsg, dbtm_msg, create_dbtm_msg, Conn, Sent}
use grit.Net.HeaderCmd.{k_judge_conflit}
use grit.Gtm.{TxidInfo, Gtm, send, answer_all, judge_conflict}

-- The messages of the database services, in the order of their arrival.
unfoldable pub judge_all : List (Conn × GtmMsg) → Gtm → Outcome Gtm
judge_all [] g = ok g
judge_all ((conn, m) ∷ votes) g = judge_conflict conn m g >>= judge_all votes

-- Who was told what about the transaction `t`.
unfoldable pub answer : ℕ → Conn → RootMsg → List (Conn × Bool)
answer t conn (dbtm_msg m) =
    if m.txid == t && m.cmd == k_judge_conflit then (conn, m.is_global_conflict) ∷ [] else []
answer t conn _ = []

unfoldable pub answers : ℕ → List Sent → List (Conn × Bool)
unfolding answer
answers t [] = []
answers t ((conn, m) ∷ sent) = answer t conn m ++ answers t sent

-- The votes on `t`.
unfoldable pub ballots : ℕ → List (Conn × GtmMsg) → List (Conn × Bool)
ballots t [] = []
ballots t ((conn, m) ∷ votes) =
    let rest = ballots t votes in if m.txid == t then (conn, m.is_local_conflict) ∷ rest else rest

abbrev pub told : List Conn → Bool → List (Conn × Bool)
told conns b = map (λ c. (c, b)) conns

-- One vote on one transaction: what is kept of it, and who is told what.
unfoldable pub cast_vote : TxidInfo → Conn → Bool → Option TxidInfo × List (Conn × Bool)
cast_vote info conn b =
    let info' : TxidInfo = record {
      server_num = decr info.server_num;
      conn_list = info.conn_list ++ conn ∷ [];
      is_conflict = info.is_conflict || b;
    } in
    if info'.server_num == 0
    then (none, told info'.conn_list info'.is_conflict)
    else (some info', [])

pub answers-append :
    (t : ℕ) (xs ys : List Sent) → answers t (xs ++ ys) ≡ answers t xs ++ answers t ys
unfolding answers
answers-append t [] ys = refl
answers-append t ((conn, m) ∷ xs) ys =
    rw (answers-append t xs ys) (sym (append_assoc (answer t conn m) (answers t xs) (answers t ys)))

answer_all_lem :
    (conns : List Conn) (m : RootMsg) (g : Gtm)
    → answer_all conns m g ≡ record g { outbox = g.outbox ++ map (λ c. (c, m)) conns }
unfolding answer_all
answer_all_lem [] m g = rw append-nil
answer_all_lem (c ∷ conns) m g =
    answer_all_lem conns m (send c m g)
    ∙ ap (λ (o : List Sent). record g { outbox = o }) (append_assoc g.outbox ((c, m) ∷ []) _)

answers-told :
    (t u : ℕ) (conns : List Conn) (b : Bool)
    → answers t (map (λ c. (c, dbtm_msg (create_dbtm_msg k_judge_conflit u b 0))) conns)
      ≡ (if u == t then told conns b else [])
unfolding answers
answers-told t u [] b = ground arith
answers-told t u (c ∷ conns) b = ground (arith, answers-told t u conns b)

-- What one message does to each transaction.
pub record Judges (conn : Conn) (m : GtmMsg) (info : TxidInfo) (g g' : Gtm) : Type 0 where
  pub kept :
      (t : ℕ)
      → g'.table t
        ≡ (if m.txid == t then (cast_vote info conn m.is_local_conflict).0 else g.table t)
  pub said :
      (t : ℕ)
      → answers t g'.outbox
        ≡ answers t g.outbox
          ++ (if m.txid == t then (cast_vote info conn m.is_local_conflict).1 else [])

counted : Conn → GtmMsg → TxidInfo → TxidInfo
counted conn m info = record {
  server_num = decr info.server_num;
  conn_list = info.conn_list ++ conn ∷ [];
  is_conflict = info.is_conflict || m.is_local_conflict;
}

-- The state after a message on a transaction whose record is `info`.
pub voted : Conn → GtmMsg → TxidInfo → Gtm → Gtm
unfolding counted
voted conn m info g =
    let info' = counted conn m info in
    let verdict = dbtm_msg (create_dbtm_msg k_judge_conflit m.txid info'.is_conflict 0) in
    if info'.server_num == 0
    then record g {
      table = erase g.table m.txid;
      outbox = g.outbox ++ map (λ c. (c, verdict)) info'.conn_list;
    }
    else record g { table = insert g.table m.txid info' }

pub judge_conflict-voted :
    (conn : Conn) (m : GtmMsg) (info : TxidInfo) (g : Gtm)
    → g.table m.txid ≡ some info
    → judge_conflict conn m g ≡ ok (voted conn m info g)
unfolding judge_conflict voted
judge_conflict-voted conn m info g e = rw (e, answer_all_lem) refl

pub voted-Judges :
    (conn : Conn) (m : GtmMsg) (info : TxidInfo) (g : Gtm)
    → Judges conn m info g (voted conn m info g)
unfolding voted cast_vote
voted-Judges conn m info g = elim (Bool-cases (decr info.server_num == 0)) [
  | inl last ↦ record {
    kept = λ t. rw last (ground arith);
    said = λ t.
        rw
          (
            last,
            answers-append t g.outbox _,
            answers-told t m.txid (info.conn_list ++ conn ∷ [])
                (info.is_conflict || m.is_local_conflict),
          )
          refl;
  }
  | inr more ↦ record {
    kept = λ t. rw more (ground arith);
    said = λ t. rw more (ground (arith, append-nil (answers t g.outbox)));
  }
]

-- A vote leaves the lists of servers as they are.
pub voted-trans_info :
    (conn : Conn) (m : GtmMsg) (info : TxidInfo) (g : Gtm)
    → (voted conn m info g).trans_info ≡ g.trans_info
unfolding voted
voted-trans_info conn m info g = elim (Bool-cases (decr info.server_num == 0)) [
  | inl last ↦ rw last refl
  | inr more ↦ rw more refl
]

pub voted-txid :
    (conn : Conn) (m : GtmMsg) (info : TxidInfo) (g : Gtm) → (voted conn m info g).txid ≡ g.txid
unfolding voted
voted-txid conn m info g = elim (Bool-cases (decr info.server_num == 0)) [
  | inl last ↦ rw last refl
  | inr more ↦ rw more refl
]

-- What is sent is one verdict, to nobody or to all.
pub voted-outbox :
    (conn : Conn) (m : GtmMsg) (info : TxidInfo) (g : Gtm)
    → (conns : List Conn) × (verdict : DbtmMsg) × ((voted conn m info g).outbox
        ≡ g.outbox ++ map (λ c. (c, dbtm_msg verdict)) conns)
unfolding voted
voted-outbox conn m info g =
    let conflict = info.is_conflict || m.is_local_conflict in
    let verdict = create_dbtm_msg k_judge_conflit m.txid conflict 0 in
    elim (Bool-cases (decr info.server_num == 0)) [
      | inl last ↦ (info.conn_list ++ conn ∷ [], verdict, rw last refl)
      | inr more ↦ ([], verdict, rw more (sym (append-nil g.outbox)))
    ]
