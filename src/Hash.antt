-- ===== src/Hash.antt =====
-- base/hash.h: Mhash, the chained table of the keys that committed transactions have written, with
-- their log sequence numbers. A chain is the list of its nodes, and a pointer to a node comes with
-- the nodes behind it. `hash` is std::hash<std::string>.
mod Tests
pub mod Primes
pub mod Ends
pub mod Rehash
pub mod Entries
pub mod Insert
pub mod Delete
pub mod Safe
pub mod Sequence
use grit.Common.{
  ltb, ◌==◌, if◌then◌else◌, get_elem?, set, replicate, Outcome, ◌>>=◌, or_fault, incr, decr, slt,
  Text, ℕ, zero, suc, ◌+◌, ◌-◌, ◌%◌, Bool, true, false, not, List, [], ◌∷◌, ◌++◌, ok, fault,
  null_pointer, out_of_range,
}

-- `lsn` is an `int`.
pub record Info : Type 0 where
  pub key : Text
  pub lsn : ℕ

pub record Mhash : Type 0 where
  pub head : List (List Info)
  pub num_point : ℕ
  pub sum : ℕ

abbrev pub prime_num : List ℕ
prime_num = 23 ∷ 29 ∷ 31 ∷ 37 ∷ 41 ∷ 43 ∷ 47 ∷ 53 ∷ 59 ∷ 61 ∷ 67 ∷ 71 ∷ 73 ∷ 79 ∷ 83 ∷ 89 ∷ 97 ∷ []

-- primeNum[i]
pub prime : ℕ → Outcome ℕ
prime i = or_fault out_of_range (get_elem? prime_num i)

-- head[i], a list that is empty where the pointer is null.
pub at : List (List Info) → ℕ → Outcome (List Info)
at head i = or_fault out_of_range (get_elem? head i)

-- The constructor.
pub mhash : Mhash
mhash = record { head = replicate 23 []; num_point = 0; sum = 0 }

-- The loop of `delLessThan`: it reads the node before it tests for the end of the chain.
pub del_loop : ℕ → List Info → ℕ → Outcome (List Info × ℕ)
del_loop lsn [] sum = fault null_pointer
del_loop lsn (info ∷ rest) sum =
    if slt info.lsn lsn then del_loop lsn rest (decr sum) else ok (info ∷ rest, sum)

abbrev pub all_primes : ℕ
all_primes = 17

abbrev pub is_null : List Info → Bool
is_null [] = true
is_null (info ∷ rest) = false

module _ (hash : Text → ℕ) where
  pub get_pos : Mhash → Text → Outcome ℕ
  unfolding prime
  get_pos m key = do p ← prime m.num_point; ok (hash key % p)

  -- `insert(struct Info *)` for the node `info` and those behind it: they become the end of the
  -- chain. Growing is a parameter, since the two functions call each other.
  pub insert_chain : (Mhash → Outcome Mhash) → Mhash → Info → List Info → Outcome Mhash
  unfolding get_pos at
  insert_chain rehash m info behind = do
    pos ← get_pos m info.key
    bucket ← at m.head pos
    p ← prime m.num_point
    let m' = record m { head = set m.head pos (bucket ++ info ∷ behind); sum = incr m.sum }
    if m'.sum == p - 1 then rehash m' else ok m'

  -- One round of the loop in `rehash`.
  pub move_chain : (Mhash → Outcome Mhash) → Mhash → List Info → Outcome Mhash
  move_chain rehash m [] = ok m
  move_chain rehash m (info ∷ behind) = insert_chain rehash m info behind

  -- The loop, with the old array from the index `i` on. Its bound is read again in each round.
  pub move_chains : (Mhash → Outcome Mhash) → List (List Info) → ℕ → Mhash → Outcome Mhash
  unfolding move_chain insert_chain
  move_chains rehash [] i m = do
    bound ← prime (m.num_point - 1)
    if ltb i bound then fault out_of_range else ok m
  move_chains rehash (chain ∷ chains) i m = do
    bound ← prime (m.num_point - 1)
    let rest = move_chain rehash m chain >>= move_chains rehash chains (i + 1)
    if ltb i bound then rest else ok m

  -- The fuel bounds how deep calls of `rehash` are nested: each takes the next of the primes.
  pub rehash : ℕ → Mhash → Outcome Mhash
  unfolding move_chains
  rehash zero m = fault out_of_range
  rehash (suc fuel) m = do
    p ← prime (m.num_point + 1)
    move_chains (rehash fuel) m.head 0
        (record m { head = replicate p []; num_point = m.num_point + 1 })

  -- insert(std::string, int)
  pub insert : Mhash → Text → ℕ → Outcome Mhash
  unfolding rehash insert_chain
  insert m k l = insert_chain (rehash all_primes) m (record { key = k; lsn = l }) []

  pub exist : Mhash → Text → Outcome Bool
  unfolding get_pos at
  exist m key = do pos ← get_pos m key; bucket ← at m.head pos; ok (not (is_null bucket))

  pub del_less_than : Mhash → Text → ℕ → Outcome Mhash
  unfolding get_pos at del_loop
  del_less_than m k lsn = do
    pos ← get_pos m k
    bucket ← at m.head pos
    (bucket', sum') ← del_loop lsn bucket m.sum
    ok (record m { head = set m.head pos bucket'; sum = sum' })
