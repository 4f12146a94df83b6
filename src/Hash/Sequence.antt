-- ===== src/Hash/Sequence.antt =====
-- Any sequence of calls of a table.
use grit.Common.{Outcome, ◌>>=◌, Text, ℕ, List, [], ◌∷◌, ok}
use grit.Hash.{Mhash, insert, exist, del_less_than}

pub data Operation : Type 0 where
  insertion : Text → ℕ → Operation
  query : Text → Operation
  deletion : Text → ℕ → Operation

module _ (hash : Text → ℕ) where
  -- The table after the calls. The answers of queries change nothing.
  unfoldable pub perform : Operation → Mhash → Outcome Mhash
  unfolding insert exist del_less_than
  perform (insertion k l) m = insert hash m k l
  perform (query k) m = do found ← exist hash m k; ok m
  perform (deletion k l) m = del_less_than hash m k l

  unfoldable pub perform_all : List Operation → Mhash → Outcome Mhash
  unfolding perform
  perform_all [] m = ok m
  perform_all (o ∷ os) m = perform o m >>= perform_all os
