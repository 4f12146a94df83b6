-- ===== src/Common/Decimal.antt =====
-- std::to_string on `int`, and its inverse std::stoi.
use Prim.Native.Nat.{ℕ, zero, suc, ◌+◌, ◌-◌, ◌*◌, ◌/◌, ◌%◌, ◌^◌, ◌<◌, ◌≤◌}
use mathlib.Core.Path.{◌≡◌, refl, sym, ap, ◌∙◌}
use mathlib.Core.Bool.{true, false}
use mathlib.Core.Logic.{inl, inr}
use mathlib.Core.List.{[], ◌∷◌, ◌++◌}
use mathlib.Core.Option.{Option, none, some}
use native.Mathlib.Omega.{arith}
use grit.Common.Tests.{ltb, if◌then◌else◌, lt-cases, ltb-true, ltb-false}
use grit.Common.Lists.{All, All-append}
use grit.Common.Words.{word_mod, sign_bit}
use grit.Common.Texts.{Text}
use grit.Common.Outcomes.{ok, ok-injective}
use grit.Common.Strings.{push_digit, read_digits, skip_spaces, read_sign, in_range, stoi}

-- At most `width` digits.
unfoldable pub decimal : ℕ → ℕ → Text
decimal zero n = []
decimal (suc width) n =
    let front = decimal width (n / 10) in
    if ltb n 10 then (b'0' + n) ∷ [] else front ++ (b'0' + n % 10) ∷ []

unfoldable pub to_string : ℕ → Text
unfolding decimal
to_string n = if ltb n sign_bit then decimal 10 n else b'-' ∷ decimal 10 (word_mod - n)

IsDigit : ℕ → Type 0
IsDigit c = (b'0' ≤ c) × (c ≤ b'9')

decimal-IsDigit : (width n : ℕ) → All IsDigit (decimal width n)
unfolding decimal IsDigit
decimal-IsDigit zero n = tt
decimal-IsDigit (suc width) n = elim (lt-cases n 10) [
  | inl lt ↦ rw (ltb-true lt) ((omega arith, omega arith), tt)
  | inr ge ↦ rw (ltb-false ge) (
      All-append IsDigit (decimal width (n / 10)) ((b'0' + n % 10) ∷ [])
        (decimal-IsDigit width (n / 10)) ((omega arith, omega arith), tt))
]

read_digits-append :
    (s t : Text) (acc : Option ℕ)
    → All IsDigit s
    → read_digits acc (s ++ t) ≡ read_digits (read_digits acc s) t
unfolding read_digits IsDigit
read_digits-append [] t acc h = refl
read_digits-append (c ∷ s) t acc h =
    ground (arith, h.0.0, h.0.1, read_digits-append s t (some (push_digit acc c)) h.1)

read_digits-decimal :
    (width n : ℕ) → 0 < width → n < 10 ^ width → read_digits none (decimal width n) ≡ some n
unfolding read_digits decimal
read_digits-decimal zero n pos lt = absurd (omega arith)
read_digits-decimal (suc zero) n pos lt = rw (ltb-true lt) (ground arith)
read_digits-decimal (suc (suc width)) n pos lt = elim (lt-cases n 10) [
  | inl one ↦ rw (ltb-true one) (ground arith)
  | inr more ↦
      let front = decimal (suc width) (n / 10) in
      let bound : n / 10 < 10 ^ suc width = omega arith in
      let step : n / 10 * 10 + n % 10 ≡ n = omega arith in
      rw
        (
          ltb-false more,
          read_digits-append front ((b'0' + n % 10) ∷ []) none
              (decimal-IsDigit (suc width) (n / 10)),
          read_digits-decimal (suc width) (n / 10) (omega arith) bound,
        )
        (ground (arith, step))
]

-- A text of digits has neither spaces nor a sign in front.
digits_first : (s : Text) → All IsDigit s → (skip_spaces s ≡ s) × (read_sign s ≡ (false, s))
unfolding IsDigit
digits_first [] h = (refl, refl)
digits_first (c ∷ s) h = (ground (arith, h.0.0, h.0.1), ground (arith, h.0.0, h.0.1))

stoi-digits :
    (s : Text) (n : ℕ) → All IsDigit s → read_digits none s ≡ some n → stoi s ≡ in_range false n
unfolding stoi
stoi-digits s n h e =
    let (skip, sign) = digits_first s h in rw (stoi, skip, sign, e, skip, sign) refl

stoi-minus : (s : Text) (n : ℕ) → read_digits none s ≡ some n → stoi (b'-' ∷ s) ≡ in_range true n
unfolding stoi
stoi-minus s n e = rw e refl

-- What `to_string` writes, `stoi` reads.
pub stoi-to_string : (n : ℕ) → n < word_mod → stoi (to_string n) ≡ ok n
unfolding to_string
stoi-to_string n h = elim (lt-cases n sign_bit) [
  | inl plus ↦ rw (ltb-true plus) (
      stoi-digits (decimal 10 n) n (decimal-IsDigit 10 n)
        (read_digits-decimal 10 n (omega arith) (omega arith))
      ∙ rw (ltb-true plus))
  | inr minus ↦
      let m = word_mod - n in
      let back : (word_mod - (word_mod - n)) % word_mod ≡ n = omega arith in
      rw (ltb-false minus) (
        stoi-minus (decimal 10 (word_mod - n)) (word_mod - n)
          (read_digits-decimal 10 (word_mod - n) (omega arith) (omega arith))
        ∙ ground (arith, back))
]

pub to_string-injective :
    (a b : ℕ) → a < word_mod → b < word_mod → to_string a ≡ to_string b → a ≡ b
to_string-injective a b ha hb e =
    ok-injective (sym (stoi-to_string a ha) ∙ ap stoi e ∙ stoi-to_string b hb)
