-- ===== src/Common/Strings.antt =====
-- What the programs use of the C++ library on strings: substr, stoi and the extraction of words.
use Prim.Native.Nat.{ℕ, ◌+◌, ◌-◌, ◌*◌, ◌%◌}
use mathlib.Core.Bool.{Bool, true, false, ◌&&◌, ◌||◌}
use mathlib.Core.List.{List, [], ◌∷◌, ◌++◌}
use mathlib.Core.Option.{Option, none, some}
use grit.Common.Tests.{ltb, leb, ◌==◌, if◌then◌else◌}
use grit.Common.Lists.{length, take, drop}
use grit.Common.Words.{word_mod, sign_bit}
use grit.Common.Texts.{Text}
use grit.Common.Outcomes.{Outcome, ok, fault, invalid_argument, out_of_limits}

-- s.substr(start, len): throws if the start lies past the end, and stops at the end.
unfoldable pub substr : Text → ℕ → ℕ → Outcome Text
substr s start len =
    if leb start (length s) then ok (take len (drop start s)) else fault out_of_limits

abbrev pub is_space : ℕ → Bool
is_space c = c == b' ' || (leb 9 c && leb c 13)

abbrev pub is_digit : ℕ → Bool
is_digit c = leb b'0' c && leb c b'9'

abbrev pub push_digit : Option ℕ → ℕ → ℕ
push_digit none c = c - b'0'
push_digit (some n) c = n * 10 + (c - b'0')

-- The digits at the front, read as a decimal number behind those that were read before.
unfoldable pub read_digits : Option ℕ → Text → Option ℕ
read_digits acc [] = acc
read_digits acc (c ∷ s) =
    let rest = read_digits (some (push_digit acc c)) s in if is_digit c then rest else acc

abbrev pub skip_spaces : Text → Text
skip_spaces [] = []
skip_spaces (c ∷ s) = let rest = skip_spaces s in if is_space c then rest else c ∷ s

-- A sign in front, and what follows it.
abbrev pub read_sign : Text → Bool × Text
read_sign [] = (false, [])
read_sign (c ∷ s) =
    if c == b'-' then (true, s) else if c == b'+' then (false, s) else (false, c ∷ s)

-- An integer in the range of `int`, as its bit pattern.
abbrev pub in_range : Bool → ℕ → Outcome ℕ
in_range negative n =
    if negative
    then (if leb n sign_bit then ok ((word_mod - n) % word_mod) else fault out_of_limits)
    else if ltb n sign_bit
    then ok n
    else fault out_of_limits

-- std::stoi: what follows the number is left alone.
unfoldable pub stoi : Text → Outcome ℕ
unfolding read_digits
stoi s =
    let (negative, digits) = read_sign (skip_spaces s) in
    elim (read_digits none digits) [ none ↦ fault invalid_argument | some n ↦ in_range negative n ]

abbrev pub push_word : Text → List Text → List Text
push_word [] ws = ws
push_word (c ∷ w) ws = (c ∷ w) ∷ ws

-- The words that `stream >> string` extracts one after the other; `word` has been read already.
unfoldable pub words_from : Text → Text → List Text
words_from word [] = push_word word []
words_from word (c ∷ s) =
    let rest = words_from (if is_space c then [] else word ++ c ∷ []) s in
    if is_space c then push_word word rest else rest

unfoldable pub words : Text → List Text
unfolding words_from
words = words_from []
