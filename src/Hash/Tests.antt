-- ===== src/Hash/Tests.antt =====
-- The table at work under a hash that adds the characters up, and its theorems at concrete inputs.
use grit.Common.{
  ltb, if◌then◌else◌, length, get_or, set, replicate, Outcome, ◌>>=◌, Text, codes, same_text, ℕ,
  zero, suc, ◌+◌, ◌-◌, ◌≤◌, ◌<◌, ◌≡◌, refl, true, false, ◌&&◌, List, [], ◌∷◌, ◌++◌, arith, ok,
  fault, null_pointer, out_of_range,
}
use grit.Hash.{is_null, Info, Mhash, mhash, insert, exist, del_less_than, rehash}
use grit.Hash.Primes.{prime_at}
use grit.Hash.Rehash.{used, slot, grown, rehash-grown, placed, hung}
use grit.Hash.Entries.{entries, gathered}
use grit.Hash.Insert.{IsValid, mhash-IsValid, added, added-IsValid, insert_lem, get_or-insert_grown}
use grit.Hash.Sequence.{Operation, insertion, query, deletion}
use grit.Hash.Delete.{newer, chain_of, del_less_than_lem}

abbrev sum_hash : Text → ℕ
sum_hash [] = 0
sum_hash (c ∷ s) = c + sum_hash s

-- Two keys of one chain, and one of another.
abbrev apple : Text
apple = codes "ab"

abbrev elppa : Text
elppa = codes "ba"

abbrev pear : Text
pear = codes "c"

program : Unit {0}
unfolding mhash insert exist del_less_than same_text
program = tt

-- Keys of one chain are not told apart.
found_by_accident : (insert sum_hash mhash apple 3 >>= λ m. exist sum_hash m elppa) ≡ ok true
unfolding program
found_by_accident = refl

not_found : (insert sum_hash mhash apple 3 >>= λ m. exist sum_hash m pear) ≡ ok false
unfolding program
not_found = refl

-- Nothing is written yet: the first check reads a null pointer.
first_check : del_less_than sum_hash mhash apple 1 ≡ fault null_pointer
unfolding program
first_check = refl

-- 22 insertions: with one chain in use the table grows to the next prime.
insert_many : ℕ → Text → Mhash → Outcome Mhash
unfolding insert
insert_many zero k m = ok m
insert_many (suc n) k m = insert sum_hash m k n >>= insert_many n k

measures : Mhash → Outcome (ℕ × ℕ)
measures m = ok (m.num_point, m.sum)

grows_once : (insert_many 22 apple mhash >>= measures) ≡ ok (1, 23)
unfolding insert_many mhash measures
grows_once = refl

-- With six chains in use the first growth runs out of bounds.
spread_out : Outcome Mhash
unfolding insert_many mhash measures
spread_out = do
  m₁ ← insert_many 1 (1 ∷ []) mhash
  m₂ ← insert_many 1 (2 ∷ []) m₁
  m₃ ← insert_many 1 (3 ∷ []) m₂
  m₄ ← insert_many 1 (4 ∷ []) m₃
  m₅ ← insert_many 1 (5 ∷ []) m₄
  insert_many 17 (6 ∷ []) m₅

overruns : spread_out ≡ fault out_of_range
unfolding spread_out
overruns = refl

abbrev one_apple : Mhash
one_apple = added sum_hash mhash apple 3

mhash_room : mhash.sum + 2 < prime_at mhash.num_point
unfolding mhash prime_at
mhash_room = omega arith

one_apple-IsValid : IsValid one_apple
one_apple-IsValid = added-IsValid sum_hash mhash apple 3 mhash-IsValid mhash_room

-- A table at its limit, all nodes in one chain.
abbrev node_of : ℕ → Info
node_of l = record { key = apple; lsn = l }

abbrev full : Mhash
full = record {
  head = replicate 11 [] ++ replicate 21 (node_of 1) ∷ replicate 11 [];
  num_point = 0;
  sum = 21;
}

full-IsValid : IsValid full
unfolding prime_at entries
full-IsValid = record {
  known = omega arith;
  width = refl;
  room = omega arith;
  counted = omega arith;
}

full_limit : prime_at full.num_point ≤ full.sum + 2
unfolding prime_at
full_limit = omega arith

full_few : full.num_point < 16
full_few = omega arith

full_width : length full.head ≡ prime_at full.num_point
unfolding prime_at
full_width = refl

full_room : full.sum + 1 < prime_at (full.num_point + 1)
unfolding prime_at
full_room = omega arith

full_moved : Mhash
full_moved = grown sum_hash (added sum_hash full pear 4)

grows_now : insert sum_hash full pear 4 ≡ ok full_moved
unfolding program full_moved grown added placed hung prime_at used
grows_now = refl

insert_lem_example : insert sum_hash full pear 4 ≡ (
    if ltb (full.sum + 2) (prime_at full.num_point)
    then ok (added sum_hash full pear 4)
    else if ltb full.num_point 16
        && ltb
            (full.sum + 1 + used (added sum_hash full pear 4).head + 1)
            (prime_at (full.num_point + 1))
    then ok (grown sum_hash (added sum_hash full pear 4))
    else fault out_of_range)
insert_lem_example = insert_lem sum_hash full pear 4 full-IsValid

get_or-insert_grown_example :
    get_or full_moved.head 3 []
    ≡ gathered sum_hash (prime_at (full.num_point + 1)) 3 (added sum_hash full pear 4).head
get_or-insert_grown_example =
    get_or-insert_grown sum_hash full full_moved pear 4 3 full-IsValid full_limit grows_now

rehash-grown_example : rehash sum_hash 1 full ≡ (
    if ltb (full.sum + used full.head + 1) (prime_at (full.num_point + 1))
    then ok (grown sum_hash full)
    else fault out_of_range)
rehash-grown_example = rehash-grown sum_hash 0 full full_few full_width full_room

del_less_than_lem_example : del_less_than sum_hash one_apple elppa 4 ≡ (
    let c = chain_of sum_hash one_apple elppa in
    if is_null (newer 4 c)
    then fault null_pointer
    else ok (record one_apple {
      head = set one_apple.head (slot sum_hash (prime_at one_apple.num_point) elppa) (newer 4 c);
      sum = one_apple.sum + length (newer 4 c) - length c;
    }))
del_less_than_lem_example = del_less_than_lem sum_hash one_apple elppa 4 one_apple-IsValid

nothing_older : del_less_than sum_hash one_apple apple 2 ≡ ok one_apple
unfolding program added hung prime_at
nothing_older = refl

-- Two keys, a question for one of them, and what is older than the second goes.
abbrev several_calls : List Operation
several_calls = insertion apple 2 ∷ insertion pear 5 ∷ query apple ∷ deletion pear 4 ∷ []
