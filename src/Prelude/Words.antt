-- ===== src/Prelude/Words.antt =====
-- `uint64`, `size_t` and pointers: numbers below 2 ^ 64, with their wrap-around written out.
use Prim.Native.Nat.{ℕ, ◌+◌, ◌-◌, ◌*◌, ◌%◌, ◌^◌}

abbrev pub word : ℕ
word = 2 ^ 64

infixl 65 ◌+w◌ ◌-w◌
infixl 70 ◌*w◌
-- a + b, a - b and a * b on `uint64`
abbrev pub ◌+w◌ : ℕ → ℕ → ℕ
a +w b = (a + b) % word

abbrev pub ◌-w◌ : ℕ → ℕ → ℕ
a -w b = (a + word - b) % word

abbrev pub ◌*w◌ : ℕ → ℕ → ℕ
a *w b = (a * b) % word
