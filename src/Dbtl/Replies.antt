-- ===== src/Dbtl/Replies.antt =====
-- What the log store sends to the database services, and to the storage servers.
use grit.Common.{
  ◌==◌, if◌then◌else◌, minus_one, incr, ℕ, ◌≡◌, refl, sym, ◌∙◌, false, not, ◌||◌, none, List, [],
  ◌∷◌, ◌++◌, append_assoc, append-nil, arith,
}
use grit.Net.{Conn, Sent, dbtm_msg, create_dbtm_msg, create_dbtl_msg}
use grit.Net.HeaderCmd.{k_lsn}
use grit.Dbtl.{Dbtl, send, ret_result}
use grit.Dbtl.Store.{solve}

-- Requests for numbers, in the order of their arrival.
unfoldable pub ask_all : List (Conn × ℕ) → Dbtl → Dbtl
ask_all [] s = s
ask_all ((conn, txid) ∷ asked) s = ask_all asked (solve conn (create_dbtl_msg k_lsn txid none) s)

-- The answers: the number itself is 0 in all of them.
unfoldable pub numbers : ℕ → List (Conn × ℕ) → List Sent
numbers lsn [] = []
numbers lsn ((conn, txid) ∷ asked) =
    (conn, dbtm_msg (create_dbtm_msg k_lsn txid (not (lsn == minus_one || lsn == 0)) 0))
    ∷ numbers (incr lsn) asked

flag_lem :
    (lsn : ℕ)
    → (if lsn == minus_one then false else not (lsn == 0)) ≡ not (lsn == minus_one || lsn == 0)
flag_lem lsn = ground arith

-- Each request for a number is answered at once, in the order of the requests; but the number goes
-- into the flag of the answer, which is set unless the number is 0 or -1, and the number of the
-- answer is 0.
pub ask_all-numbers :
    (asked : List (Conn × ℕ)) (s : Dbtl)
    → (ask_all asked s).outbox ≡ s.outbox ++ numbers s.apply_lsn asked
unfolding ask_all numbers solve ret_result send
ask_all-numbers [] s = sym (append-nil s.outbox)
ask_all-numbers ((conn, txid) ∷ asked) s =
    ask_all-numbers asked (solve conn (create_dbtl_msg k_lsn txid none) s)
    ∙ rw (append_assoc s.outbox, flag_lem s.apply_lsn) refl
