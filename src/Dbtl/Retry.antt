-- ===== src/Dbtl/Retry.antt =====
-- The answers of the storage servers: who is still waited for, and when a log is played again.
use grit.Common.{
  ltb, ◌==◌, if◌then◌else◌, ==_refl, lt-cases, ltb-true, ltb-false, get_elem?, set, Outcome, ◌>>=◌,
  Returns, none-ne-some, word_mod, sign_bit, incr, slt, ℕ, zero, suc, ◌+◌, ◌*◌, ◌%◌, ◌^◌, ◌<◌, ◌≡◌,
  refl, ap, ◌∙◌, inl, inr, true, false, some, List, [], ◌∷◌, arith, ok,
}
use grit.Net.{LogPlayerMsg}
use grit.Net.HeaderCmd.{k_exec_tran_succ, k_exec_tran_fail}
use grit.TimeWheel.{TimeWheel, add_timer}
use grit.Dbtl.{Dbtl, delay, answer}

abbrev pub fail_msg : ℕ → ℕ → LogPlayerMsg
fail_msg txid id = record { cmd = k_exec_tran_fail; txid = txid; id = id }

abbrev pub success_msg : ℕ → ℕ → LogPlayerMsg
success_msg txid id = record { cmd = k_exec_tran_succ; txid = txid; id = id }

-- A server fails `n` times on the same log.
unfoldable pub fail_all : ℕ → LogPlayerMsg → ℕ → Dbtl → Outcome Dbtl
fail_all max_retry msg zero s = ok s
fail_all max_retry msg (suc n) s = fail_all max_retry msg n s >>= answer max_retry msg

-- The wheel with timers for the first `n` retries: the k-th after 2 ^ k * 1000 ticks.
unfoldable pub retries : ℕ → TimeWheel ℕ → ℕ → TimeWheel ℕ
retries txid w zero = w
retries txid w (suc n) = (add_timer (retries txid w n) (2 ^ suc n * 1000) txid).0

abbrev pub capped : ℕ → ℕ → ℕ
capped n bound = if ltb n bound then n else bound

record Failed (txid id n : ℕ) (w : TimeWheel ℕ) (s : Dbtl) : Type 0 where
  counted : get_elem? (s.retry_table txid) id ≡ some n
  armed : s.time_wheel ≡ w

get_elem?-set :
    (xs : List ℕ) (i x y : ℕ) → get_elem? xs i ≡ some y → get_elem? (set xs i x) i ≡ some x
get_elem?-set [] i x y e = absurd (none-ne-some e)
get_elem?-set (z ∷ xs) zero x y e = refl
get_elem?-set (z ∷ xs) (suc i) x y e = get_elem?-set xs i x y e

answer-Failed :
    (max_retry txid id n : ℕ) (w : TimeWheel ℕ) (s : Dbtl)
    → max_retry < 55
    → suc n < sign_bit
    → Failed txid id n w s
    → Returns (answer max_retry (fail_msg txid id) s) (
        Failed txid id
          (suc n)
          (if ltb n max_retry then (add_timer w (2 ^ suc n * 1000) txid).0 else w))
unfolding answer delay
answer-Failed max_retry txid id n w s few small f =
    let next : incr n ≡ suc n = omega arith in
    let table : ℕ → List ℕ =
      λ t. if txid == t then set (s.retry_table txid) id (suc n) else s.retry_table t in
    let counted' : get_elem? (table txid) id ≡ some (suc n) =
      rw (==_refl txid) (get_elem?-set (s.retry_table txid) id (suc n) n f.counted) in
    elim (lt-cases n max_retry) [
      | inl again ↦
          let off : slt max_retry (suc n) ≡ false =
            ltb-false {a = (max_retry + sign_bit) % word_mod} {b = (suc n + sign_bit) % word_mod}
              (omega arith) in
          (
            record s {
              retry_table = table;
              time_wheel = (add_timer s.time_wheel (2 ^ suc n * 1000) txid).0;
            },
            rw (f.counted, next, off, ltb-true {a = suc n} {b = 55} (omega arith)) refl,
            record { counted = counted'; armed = rw (ltb-true again, f.armed) refl },
          )
      | inr enough ↦
          let on : slt max_retry (suc n) ≡ true =
            ltb-true {a = (max_retry + sign_bit) % word_mod} {b = (suc n + sign_bit) % word_mod}
              (omega arith) in
          (
            record s { retry_table = table },
            rw (f.counted, next, on) refl,
            record { counted = counted'; armed = rw (ltb-false enough) f.armed },
          )
    ]

capped_zero : (bound : ℕ) → 0 ≡ capped 0 bound
capped_zero bound = ground arith

retries-step :
    (n bound txid : ℕ) (w : TimeWheel ℕ)
    → (if ltb n bound
        then (add_timer (retries txid w (capped n bound)) (2 ^ suc n * 1000) txid).0
        else retries txid w (capped n bound))
      ≡ retries txid w (capped (suc n) bound)
unfolding retries
retries-step n bound txid w = elim (lt-cases n bound) [
  | inl lt ↦ elim (lt-cases (suc n) bound) [
    | inl more ↦ rw (ltb-true lt, ltb-true more) refl
    | inr last ↦ let e : bound ≡ suc n = omega arith in rw (ltb-true lt, ltb-false last, e) refl
  ]
  | inr ge ↦ rw (ltb-false ge, ltb-false {a = suc n} {b = bound} (omega arith)) refl
]

-- A server that fails `n` times on a log, fewer than 2 ^ 31 times from its first failure on and
-- with no tick in between, makes the player schedule the log again `n` times, but never more than
-- `max_retry` times, if that is less than 55: the k-th retry with a timeout of 2 ^ k * 1000.
pub fail_all-retries :
    (max_retry txid id n : ℕ) (s : Dbtl)
    → max_retry < 55
    → n < sign_bit
    → get_elem? (s.retry_table txid) id ≡ some 0
    → Returns (fail_all max_retry (fail_msg txid id) n s) λ s'.
      (s'.time_wheel ≡ retries txid s.time_wheel (capped n max_retry))
      × (get_elem? (s'.retry_table txid) id ≡ some n)
unfolding fail_all retries
fail_all-retries max_retry txid id zero s few small first =
    (s, refl, (ap (retries txid s.time_wheel) (capped_zero max_retry), first))
fail_all-retries max_retry txid id (suc n) s few small first =
    let (s₁, run₁, (armed, counted)) =
      fail_all-retries max_retry txid id n s few (omega arith) first in
    let (s₂, run₂, f) =
      answer-Failed max_retry txid id n (retries txid s.time_wheel (capped n max_retry)) s₁ few
        small (record { counted = counted; armed = armed }) in
    (s₂, rw run₁ run₂, (f.armed ∙ retries-step n max_retry txid s.time_wheel, f.counted))
