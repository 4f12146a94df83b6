-- ===== src/DbService/Files.antt =====
-- The log files of transactions.
use grit.Common.{to_string-injective, word_mod, Text, ℕ, ◌<◌, ◌≡◌, ◌≢◌, [], ◌∷◌, ◌++◌}
use grit.DbService.Dbtm.{log_file}

tail_unique : {x y : ℕ} {xs ys : Text} → x ∷ xs ≡ y ∷ ys → xs ≡ ys
tail_unique e = cc

append-cancel : (xs : Text) {ys zs : Text} → xs ++ ys ≡ xs ++ zs → ys ≡ zs
append-cancel [] e = e
append-cancel (x ∷ xs) {ys} {zs} e = append-cancel xs (tail_unique e)

-- Transactions with different ids, as 32-bit integers, have different log files.
pub log_file_apart :
    (hash : Text → ℕ) (path : Text) (a b : ℕ)
    → a < word_mod
    → b < word_mod
    → a ≢ b
    → log_file hash path a ≢ log_file hash path b
unfolding log_file
log_file_apart hash path a b ha hb ne =
    λ e. ne (to_string-injective a b ha hb (append-cancel path e))
