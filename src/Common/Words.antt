-- ===== src/Common/Words.antt =====
-- `int` and `std::atomic<int>`: 32 bits, as the number below 2 ^ 32 that has the same bit pattern.
use Prim.Native.Nat.{ℕ, ◌+◌, ◌-◌, ◌%◌, ◌^◌}
use mathlib.Core.Bool.{Bool}
use grit.Common.Tests.{ltb}

abbrev pub word_mod : ℕ
word_mod = 2 ^ 32

-- The first bit pattern that stands for a negative number.
abbrev pub sign_bit : ℕ
sign_bit = 2 ^ 31

-- The pattern of -1.
abbrev pub minus_one : ℕ
minus_one = 2 ^ 32 - 1

-- A conversion to `int` keeps the low 32 bits.
abbrev pub to_int : ℕ → ℕ
to_int n = n % word_mod

-- x + 1 and x - 1 on `int`, with the wrap-around of the atomics and of the machine.
abbrev pub incr : ℕ → ℕ
incr x = (x + 1) % word_mod

abbrev pub decr : ℕ → ℕ
decr x = (x + minus_one) % word_mod

-- The signed comparison a < b.
abbrev pub slt : ℕ → ℕ → Bool
slt a b = ltb ((a + sign_bit) % word_mod) ((b + sign_bit) % word_mod)
