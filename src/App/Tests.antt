-- ===== src/App/Tests.antt =====
-- Commands of the application, and its theorem at a concrete input.
use grit.Common.{
  Text, codes, same_text, substr, read_digits, stoi, ◌≡◌, refl, inr, false, none, some, [], ◌∷◌,
  arith, ok, fault, uninitialised, invalid_argument, out_of_limits,
}
use grit.Net.{create_es_msg}
use grit.Net.HeaderCmd.{k_change, k_delete}
use grit.App.{App, to_space, word, cmd_of, parse}
use grit.App.Commands.{command, parse-command}

abbrev shop : App
shop = record {
  gtm_conn = some 30;
  txid = 7;
  conn_list = 1 ∷ 2 ∷ [];
  connecting = [];
  outbox = [];
  shown = [];
}

abbrev key : Text
key = codes "apple"

program : Unit {0}
unfolding parse word to_space cmd_of same_text substr stoi read_digits
program = tt

deletes :
    parse 7 (codes "delete 1 apple") ≡ ok (create_es_msg k_delete 7 false 1 (some key) none none)
unfolding program
deletes = refl

-- The words `node` and `edge` of the comment are no numbers.
node : parse 7 (codes "add node apple n 3") ≡ fault invalid_argument
unfolding program
node = refl

-- `change` is not known, only `Change` is, and so the variable `cmd` stays unset.
lower_case : parse 7 (codes "change 1 apple n 3") ≡ fault uninitialised
unfolding program
lower_case = refl

-- A command that ends too early throws.
too_short : parse 7 (codes "add 1 apple") ≡ fault out_of_limits
unfolding program
too_short = refl

change_known : cmd_of (codes "Change") ≡ some k_change
unfolding program
change_known = refl

one : stoi (codes "1") ≡ ok 1
unfolding program
one = refl

parse-command_example :
    parse 7 (command (codes "Change") (codes "1") (codes "a") (codes "n") (codes "3"))
    ≡ ok (create_es_msg k_change 7 false 1 (some (codes "a")) (some (codes "n")) (some (codes "3")))
parse-command_example =
    parse-command 7 k_change 1 (codes "Change") (codes "1") (codes "a") (codes "n") (codes "3")
      (omega arith, (omega arith, (omega arith, (omega arith, (omega arith, (omega arith, tt))))))
      (omega arith, tt) (omega arith, tt) (omega arith, tt) (omega arith, tt) change_known
      (inr refl) one
