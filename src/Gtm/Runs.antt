-- ===== src/Gtm/Runs.antt =====
-- The manager through a whole run: the messages of all clients and services, in the order in which
-- the loop of its server hands them to `onMessage`.
use grit.Common.{
  Stride, Trace, run_all-Trace, ltb, Bool-cases, Option-cases, eq-cases, eq_true, eq_false, length,
  length-append, Outcome, some-injective, sign_bit, to_int, Text, ℕ, ◌+◌, ◌<◌, ◌≡◌, refl, sym,
  subst, ◌∙◌, ◌⊎◌, inl, inr, Bool, none, some, List, [], ◌∷◌, arith, carries_on, halts,
  null_pointer, bad_cast,
}
use grit.Net.{GtmMsg, RootMsg, gtm_msg, Conn}
use grit.Net.HeaderCmd.{k_get_txid, k_judge_conflit}
use grit.Gtm.{IpandPort, TxidInfo, Gtm, get_txid, judge_conflict, on_message, txid_info}
use grit.Gtm.Verdict.{IsOpen}
use grit.Gtm.Ballot.{voted, judge_conflict-voted, voted-Judges, voted-trans_info, cast_vote}

unfoldable pub serve : Conn × RootMsg → Gtm → Outcome Gtm
serve (conn, m) g = on_message conn m g

-- A record of the table: the votes that are in and those that it waits for, at least one, are as
-- many as the servers of some transaction type.
pub record Counted (trans_info : Text → List IpandPort) (info : TxidInfo) : Type 0 where
  pub type : Text
  pub total : length info.conn_list + info.server_num ≡ length (trans_info type)
  pub pos : 0 < info.server_num

abbrev pub IsCounted : Gtm → Type 0
IsCounted g = (t : ℕ) (info : TxidInfo) → g.table t ≡ some info → Counted g.trans_info info

-- Every list of servers is shorter than 2 ^ 31.
abbrev pub IsShort : Gtm → Type 0
IsShort g = (type : Text) → length (g.trans_info type) < sign_bit

abbrev pub IsSteady : Gtm → Type 0
IsSteady g = IsShort g × IsCounted g

-- A message that ends the process: one of another type, a request without a transaction type, or a
-- vote on a transaction that has no record.
abbrev pub Refused : Conn × RootMsg → Gtm → Type 0
Refused (_, gtm_msg m) g =
    ((m.cmd ≡ k_get_txid) × (m.trans_type ≡ none))
    ⊎ ((m.cmd ≡ k_judge_conflit) × (g.table m.txid ≡ none))
Refused _ g = Unit {0}

Counted-txid_info :
    (trans_info : Text → List IpandPort) (type : Text) (i : TxidInfo)
    → 1 < length (trans_info type)
    → length (trans_info type) < sign_bit
    → some (txid_info (length (trans_info type))) ≡ some i
    → Counted trans_info i
unfolding txid_info
Counted-txid_info trans_info type i several small e =
    let width : to_int (length (trans_info type)) ≡ length (trans_info type) = omega arith in
    subst (Counted trans_info) (some-injective e)
      (record { type = type; total = omega (arith, width); pos = omega (arith, width) })

get_txid-IsCounted :
    (conn : Conn) (type : Text) (g : Gtm)
    → IsShort g
    → IsCounted g
    → IsCounted (get_txid conn type g)
unfolding get_txid
get_txid-IsCounted conn type g short c t i e =
    elim (Bool-cases (ltb 1 (length (g.trans_info type)))) [
      | inl several ↦ elim (eq-cases g.txid t) [
        | inl same ↦
            Counted-txid_info g.trans_info type i (ground (arith, several)) (short type)
              (rw (several, eq_true same) at e)
        | inr apart ↦ c t i (rw (several, eq_false apart) at e)
      ]
      | inr single ↦ c t i (rw single at e)
    ]

Counted-cast_vote :
    (trans_info : Text → List IpandPort) (info i : TxidInfo) (conn : Conn) (b : Bool)
    → ((type : Text) → length (trans_info type) < sign_bit)
    → Counted trans_info info
    → (cast_vote info conn b).0 ≡ some i
    → Counted trans_info i
unfolding cast_vote
Counted-cast_vote trans_info info i conn b short k e =
    let small = short k.type in
    let all_in = k.total in
    let left = k.pos in
    let width = length-append info.conn_list (conn ∷ []) in
    record {
      type = k.type;
      total = ground (arith, width, all_in, small, left);
      pos = ground (arith, all_in, small, left);
    }

voted-IsCounted :
    (conn : Conn) (m : GtmMsg) (info : TxidInfo) (g : Gtm)
    → IsShort g
    → g.table m.txid ≡ some info
    → IsCounted g
    → IsCounted (voted conn m info g)
voted-IsCounted conn m info g short here c t i e =
    let kept = (voted-Judges conn m info g).kept t in
    let counted : Counted g.trans_info i = elim (eq-cases m.txid t) [
      | inl same ↦
          Counted-cast_vote g.trans_info info i conn m.is_local_conflict short (c m.txid info here)
            (rw (eq_true same) at (sym kept ∙ e))
      | inr apart ↦ c t i (rw (eq_false apart) at (sym kept ∙ e))
    ] in
    subst (λ f. Counted f i) (sym (voted-trans_info conn m info g)) counted

voted-IsShort :
    (conn : Conn) (m : GtmMsg) (info : TxidInfo) (g : Gtm)
    → IsShort g
    → IsShort (voted conn m info g)
voted-IsShort conn m info g short type =
    subst (λ f. length (f type) < sign_bit) (sym (voted-trans_info conn m info g)) (short type)

serve-Stride : (e : Conn × RootMsg) (g : Gtm) → IsSteady g → Stride serve IsSteady Refused e g
unfolding serve
serve-Stride (conn, gtm_msg m) g (short, c) = elim (eq-cases m.cmd k_get_txid) [
  | inl asks ↦ elim (Option-cases m.trans_type) [
    | inl no_type ↦
        halts null_pointer (unfold on_message in rw (eq_true asks, no_type) refl)
          (inl (asks, no_type))
    | inr (type, e) ↦
        carries_on (get_txid conn type g) (unfold on_message in rw (eq_true asks, e) refl)
          (unfold get_txid in short, get_txid-IsCounted conn type g short c)
  ]
  | inr other ↦ elim (eq-cases m.cmd k_judge_conflit) [
    | inl votes ↦ elim (Option-cases (g.table m.txid)) [
      | inl missing ↦
          halts null_pointer
            (unfold on_message judge_conflict in rw (eq_false other, eq_true votes, missing) refl)
            (inr (votes, missing))
      | inr (info, e) ↦
          carries_on (voted conn m info g)
            (unfold on_message in
              rw (eq_false other, eq_true votes) (judge_conflict-voted conn m info g e))
            (voted-IsShort conn m info g short, voted-IsCounted conn m info g short e c)
    ]
    | inr ignored ↦
        carries_on g (unfold on_message in rw (eq_false other, eq_false ignored) refl) (short, c)
  ]
]
serve-Stride (conn, _) g h = halts bad_cast (unfold on_message in refl) tt

-- Let the list of servers of each transaction type be shorter than 2 ^ 31, and the record of each
-- open transaction be counted: the votes that are in and those that it waits for, at least one, are
-- as many as the servers of some type. All messages of a run are then handled, each with records
-- that are counted again, or else all up to the first that is of another type, asks for an id
-- without a transaction type, or votes on a transaction that has no record; that one is a fault.
pub serve-Trace :
    (ms : List (Conn × RootMsg)) (g : Gtm)
    → IsShort g
    → IsCounted g
    → Trace serve IsSteady Refused ms g
serve-Trace ms g short c = run_all-Trace serve IsSteady Refused serve-Stride ms g (short, c)

-- The hypothesis of the theorems on the verdict holds in every such state.
pub IsCounted-IsOpen : (g : Gtm) → IsShort g → IsCounted g → IsOpen g
IsCounted-IsOpen g short c t info e =
    let k = c t info e in (k.pos, omega (arith, k.total, short k.type))
