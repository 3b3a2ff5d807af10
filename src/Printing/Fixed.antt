-- ===== src/Printing/Fixed.antt =====
-- Fractional of util/arithmetics.hpp: numbers with a fixed number of decimal places.
use os1_proj.Prelude.{
  ℕ, zero, suc, ◌+◌, ◌-◌, ◌/◌, ◌%◌, ◌<◌, ◌≡◌, refl, List, ◌∷◌, ◌++◌, arith, ◌==◌, Bool-cases, true,
  inl, inr, word, length, ◌∙◌, ap, ◌-w◌, ◌*w◌, ◌+w◌,
}
use os1_proj.Printing.{
  Char, digits_loop, count_loop, count_digits, power_10, fractional, string_to_int,
}
use os1_proj.Printing.Decimal.{tens}

-- The loop of countDigits counts the digits but for the first.
count_loop-length :
    (fuel i x : ℕ)
    → x < tens (suc fuel)
    → i + fuel < word
    → count_loop (suc fuel) i x + 1 ≡ i + length (digits_loop (suc fuel) 10 x)
unfolding count_loop digits_loop
count_loop-length zero i x h k = let z : (x / 10 == 0) ≡ true = ground arith in rw z refl
count_loop-length (suc fuel) i x h k = elim (Bool-cases (x / 10 == 0)) [
  | inl z ↦ rw z refl
  | inr z ↦
      let step : i +w 1 ≡ i + 1 = omega arith in
      rw (z, step)
        (omega (arith, count_loop-length fuel (i + 1) (x / 10) (omega arith) (omega arith)))
]

-- For every uint64, countDigits is the number of its decimal digits.
pub count_digits-length : (x : ℕ) → x < word → count_digits x ≡ length (digits_loop 20 10 x)
unfolding count_digits
count_digits-length x h =
    let e = count_loop-length 19 1 x (omega arith) (omega arith) in omega (arith, e)

rest_by_one : (d : ℕ) → d % 1 ≡ 0
rest_by_one d = omega arith

one_place : 0 -w count_digits 0 ≡ word - 1
unfolding count_digits
one_place = refl

-- With no decimal places the number of leading zeros wraps around to 2 ^ 64 - 1, whatever the number
-- is.
pub fractional_no_places : (a b : ℕ) → (fractional a b 0).zeros ≡ word - 1
unfolding fractional power_10
fractional_no_places a b = ap (λ z. 0 -w count_digits z) (rest_by_one ((a *w 1) / b)) ∙ one_place

-- The characters show a number with `p` decimal places: `whole` before the point, and behind it `p`
-- digits for `part`.
pub record IsDecimal (whole part p : ℕ) (shown : List Char) : Type 0 where
  pub before : List Char
  pub behind : List Char
  pub split : shown ≡ before ++ 46 ∷ behind
  pub places : length behind ≡ p
  pub whole_read : string_to_int before ≡ whole
  pub part_read : string_to_int behind ≡ part
