-- ===== src/Gtm/Tests.antt =====
-- The manager at work on a small file of transactions, and its theorems at concrete inputs.
use grit.Common.{
  run_all, Trace, if◌then◌else◌, length, All, Outcome, ◌>>=◌, Returns, none-ne-some, no_entries,
  insert, word_mod, sign_bit, Text, codes, same_text, read_digits, stoi, ℕ, ◌-◌, ◌≤◌, ◌<◌, ◌≡◌,
  refl, ◌≢◌, Bool, true, false, none, some, List, [], ◌∷◌, ◌++◌, map, arith, ok, fault,
  null_pointer, invalid_argument,
}
use grit.Net.{GtmMsg, RootMsg, gtm_msg, Conn, create_gtm_msg}
use grit.Net.HeaderCmd.{k_get_txid, k_judge_conflit, k_commit}
use grit.Gtm.{IpandPort, Gtm, gtm, init, get_txid, on_message, txid_info, read_servers, size_mod}
use grit.Gtm.Transactions.{
  Server, IsServer, written, listed, add_servers, read_servers-written, handed_out,
}
use grit.Gtm.Ballot.{judge_all, answers, ballots}
use grit.Gtm.Verdict.{awaited, any_conflict, voters, IsOpen, Settles, judge_all-Settles}
use grit.Gtm.Runs.{IsShort, IsCounted, IsSteady, Refused, serve, serve-Trace}
use grit.Gtm.Ids.{requests, app_answers, app_answers-serve}
use grit.Gtm.Round.{On, judge_all-get_txid}

abbrev buy : Text
buy = codes "buy"

abbrev file : Text
file = codes "buy 10.0.0.1:81;10.0.0.2:82; look 10.0.0.1:81;"

abbrev two_servers : List IpandPort
two_servers =
    record { ip = codes "10.0.0.1:"; port = 81 } ∷ record { ip = codes "10.0.0.2:"; port = 82 } ∷ []

listed_servers : Text → Outcome (List IpandPort)
listed_servers type = init file gtm >>= λ g. ok (g.trans_info type)

-- The addresses keep their colon.
init_reads : listed_servers buy ≡ ok two_servers
unfolding listed_servers init gtm same_text
init_reads = refl

-- A port that is no number ends the process.
init_throws : init (codes "buy host:x;") gtm ≡ fault invalid_argument
unfolding init
init_throws = refl

abbrev shop : Gtm
shop = record gtm { txid = 7; trans_info = λ t. if same_text t buy then two_servers else [] }

vote : Bool → GtmMsg
vote conflict = create_gtm_msg k_judge_conflit 7 conflict none

-- A vote on a transaction with no record, such as one with a single server, reads a null pointer.
unknown_vote : on_message 3 (gtm_msg (vote true)) gtm ≡ fault null_pointer
unfolding on_message gtm vote
unknown_vote = refl

-- Other commands are ignored.
ignored : on_message 3 (gtm_msg (create_gtm_msg k_commit 7 true none)) gtm ≡ ok gtm
unfolding on_message gtm
ignored = refl

shop-IsOpen : IsOpen shop
unfolding gtm
shop-IsOpen t info e = cc

two_votes : List (Conn × GtmMsg)
two_votes = (1, vote false) ∷ (2, vote true) ∷ []

shop_txid : shop.txid < word_mod
unfolding gtm
shop_txid = omega arith

two_servers_written : List Server
two_servers_written =
    record { address = codes "a"; digits = codes "81"; port = 81 }
    ∷ record { address = codes "b"; digits = codes "2"; port = 2 }
    ∷ []

two_servers_fine : All IsServer two_servers_written
unfolding two_servers_written stoi read_digits
two_servers_fine = (
  (
    ((omega arith, omega arith), tt),
    ((omega arith, omega arith), ((omega arith, omega arith), tt)),
    refl,
  ),
  ((((omega arith, omega arith), tt), ((omega arith, omega arith), tt), refl), tt),
)

two_servers_short : length (written two_servers_written) < size_mod
unfolding two_servers_written written
two_servers_short = omega arith

read_servers-written_example :
    read_servers buy
      (written two_servers_written)
      (written two_servers_written)
      0
      0
      (size_mod - 1)
      gtm.trans_info
    ≡ ok (add_servers buy (listed two_servers_written) gtm.trans_info)
read_servers-written_example =
    read_servers-written buy two_servers_written gtm.trans_info two_servers_fine two_servers_short

several : 1 < length (shop.trans_info buy)
unfolding same_text
several = omega arith

few : length (shop.trans_info buy) < sign_bit
unfolding same_text
few = omega arith

all_voted : length two_votes ≡ length (shop.trans_info buy)
unfolding same_text two_votes
all_voted = refl

votes_here : All (On shop.txid) two_votes
unfolding two_votes vote gtm
votes_here = (refl, (refl, tt))

judge_all-get_txid_example : Returns (judge_all two_votes (get_txid 9 buy shop)) λ g'.
    (g'.table shop.txid ≡ none)
    × (answers shop.txid g'.outbox
        ≡ answers shop.txid shop.outbox
          ++ map
              (λ c. (c, any_conflict (ballots shop.txid two_votes)))
              (voters (ballots shop.txid two_votes)))
    × ((t : ℕ) → shop.txid ≢ t → answers t g'.outbox ≡ answers t shop.outbox)
judge_all-get_txid_example =
    judge_all-get_txid 9 buy shop two_votes shop-IsOpen several few all_voted votes_here

-- A transaction that waits for two votes.
waiting : Gtm
waiting = record gtm { table = insert no_entries 7 (txid_info 2) }

waiting-IsOpen : IsOpen waiting
unfolding waiting txid_info
waiting-IsOpen t info e = ground arith

waiting_votes : (t : ℕ) → length (ballots t two_votes) ≤ awaited (waiting.table t)
unfolding waiting txid_info ballots two_votes vote
waiting_votes t = ground arith

judge_all-Settles_example : Returns (judge_all two_votes waiting) (Settles waiting two_votes)
judge_all-Settles_example = judge_all-Settles two_votes waiting waiting-IsOpen waiting_votes

shop-IsShort : IsShort shop
unfolding same_text
shop-IsShort type = ground arith

shop-IsCounted : IsCounted shop
unfolding gtm
shop-IsCounted t info e = absurd (none-ne-some e)

-- A customer asks for an id, one of the two servers votes, and somebody votes on an unknown id.
some_messages : List (Conn × RootMsg)
some_messages =
    (1, gtm_msg (create_gtm_msg k_get_txid 0 false (some buy)))
    ∷ (2, gtm_msg (vote true))
    ∷ (3, gtm_msg (create_gtm_msg k_judge_conflit 5 false none))
    ∷ []

serve-Trace_example : Trace serve IsSteady Refused some_messages shop
serve-Trace_example = serve-Trace some_messages shop shop-IsShort shop-IsCounted

-- Two requests with a vote on the first in between.
abbrev mixed_messages : List (Conn × RootMsg)
mixed_messages =
    (1, gtm_msg (create_gtm_msg k_get_txid 0 false (some buy)))
    ∷ (2, gtm_msg (create_gtm_msg k_judge_conflit 7 true none))
    ∷ (1, gtm_msg (create_gtm_msg k_get_txid 0 false (some (codes "look"))))
    ∷ []

abbrev result_or : Gtm → Outcome Gtm → Gtm
result_or g (ok g') = g'
result_or g (fault e) = g

abbrev later_shop : Gtm
later_shop = result_or shop (run_all serve mixed_messages shop)

later_shop-run : run_all serve mixed_messages shop ≡ ok later_shop
unfolding run_all serve on_message same_text
later_shop-run = refl

app_answers-serve_example :
    app_answers later_shop.outbox
    ≡ app_answers shop.outbox ++ handed_out shop.trans_info shop.txid 0 (requests mixed_messages)
app_answers-serve_example =
    app_answers-serve mixed_messages shop later_shop shop_txid later_shop-run
