-- ===== src/Printing/Decimal.antt =====
-- Decimal numbers printed by mPrintInt and read by mStringToInt.
use os1_proj.Prelude.{
  ℕ, zero, suc, ◌+◌, ◌-◌, ◌*◌, ◌/◌, ◌%◌, ◌^◌, ◌≤◌, ◌<◌, ◌≡◌, refl, List, [], ◌∷◌, ◌++◌, arith, ltb,
  ◌==◌, Bool-cases, true, false, inl, inr, ltb→lt, ◌*w◌, ◌∙◌, ap, leb, ◌&&◌, ◌&&◌,
}
use os1_proj.Printing.{
  Char, uint, digit, divide_10, settle, decimal_loop, digits_loop, convert_int, backwards,
  print_int, parse_loop, string_to_int, factor_32,
}

abbrev AllDigits : List Char → Type 0
AllDigits [] = Unit {0}
AllDigits (c ∷ s) = (48 ≤ c) × (c ≤ 57) × AllDigits s

-- The correction finds the quotient and the remainder.
settle_quotient : (x q : ℕ) → x / 10 ≤ q → q ≤ x / 10 + 1 → settle 2 x q ≡ (x / 10, x % 10)
unfolding settle
settle_quotient x q lo hi = elim (Bool-cases (ltb x (10 * q))) [
  | inl e ↦
      let below : x < 10 * q = ltb→lt x (10 * q) e in
      let done : ltb x (10 * (q - 1)) ≡ false = ground arith in
      let quotient : q - 1 ≡ x / 10 = omega arith in
      let remainder : x - 10 * (q - 1) ≡ x % 10 = omega arith in
      rw (e, done) (λ i. (quotient i, remainder i))
  | inr e ↦
      let above : 10 * q ≤ x = ground arith in
      let quotient : q ≡ x / 10 = omega arith in
      let remainder : x - 10 * q ≡ x % 10 = omega arith in rw e (λ i. (quotient i, remainder i))
]

-- On `uint` the multiplication by FACTOR_32 and the correction after it divide by 10.
pub divide_10_div : (x : ℕ) → x < uint → divide_10 x ≡ (x / 10, x % 10)
unfolding divide_10
divide_10_div x h =
    let exact : factor_32 *w x ≡ 429496730 * x = omega arith in
    rw exact (settle_quotient x (429496730 * x / 2 ^ 32) (omega arith) (omega arith))

-- On a `uint` the loop for base 10 writes what the loop of the other bases would write for base 10.
pub decimal_loop_digits : (fuel x : ℕ) → x < uint → decimal_loop fuel x ≡ digits_loop fuel 10 x
unfolding decimal_loop digits_loop
decimal_loop_digits zero x h = refl
decimal_loop_digits (suc fuel) x h =
    rw (divide_10_div x h, decimal_loop_digits fuel (x / 10) (omega arith)) refl

in_range : (c : Char) → 48 ≤ c → c ≤ 57 → (leb 48 c && leb c 57) ≡ true
in_range c lo hi = ground arith

-- Reading one string of digits after another.
parse_loop-append :
    (n : ℕ) (s t : List Char) → AllDigits s → parse_loop n (s ++ t) ≡ parse_loop (parse_loop n s) t
unfolding parse_loop
parse_loop-append n [] t d = refl
parse_loop-append n (c ∷ s) t d =
    rw (in_range c d.0 d.1) (parse_loop-append ((n * 10 + c + uint - 48) % uint) s t d.2)

AllDigits-append : (s t : List Char) → AllDigits s → AllDigits t → AllDigits (s ++ t)
AllDigits-append [] t d e = e
AllDigits-append (c ∷ s) t d e = (d.0, d.1, AllDigits-append s t d.2 e)

AllDigits-backwards : (s : List Char) → AllDigits s → AllDigits (backwards s)
unfolding backwards
AllDigits-backwards [] d = tt
AllDigits-backwards (c ∷ s) d =
    AllDigits-append (backwards s) (c ∷ []) (AllDigits-backwards s d.2) (d.0, d.1, tt)

digit_small : (d : ℕ) → d < 10 → digit d ≡ 48 + d
unfolding digit
digit_small d h = ground arith

digits_loop-AllDigits : (fuel x : ℕ) → AllDigits (digits_loop fuel 10 x)
unfolding digits_loop
digits_loop-AllDigits zero x = tt
digits_loop-AllDigits (suc fuel) x =
    let e : digit (x % 10) ≡ 48 + x % 10 = digit_small (x % 10) (omega arith) in
    rw e (
      omega arith,
      omega arith,
      elim (Bool-cases (x / 10 == 0)) [
        | inl h ↦ rw h tt
        | inr h ↦ rw h (digits_loop-AllDigits fuel (x / 10))
      ],
    )

abbrev pub tens : ℕ → ℕ
tens zero = 1
tens (suc n) = 10 * tens n

one_digit : (n d : ℕ) → d < 10 → n * 10 + d < uint → parse_loop n ((48 + d) ∷ []) ≡ n * 10 + d
unfolding parse_loop
one_digit n d h k = rw (in_range (48 + d) (omega arith) (omega arith)) (omega arith)

-- Enough digits are read back as the number that they were written for.
read_back :
    (fuel x : ℕ) → x < tens fuel → x < uint → parse_loop 0 (backwards (digits_loop fuel 10 x)) ≡ x
unfolding parse_loop backwards digits_loop
read_back zero x h k = omega arith
read_back (suc fuel) x h k =
    let e : digit (x % 10) ≡ 48 + x % 10 = digit_small (x % 10) (omega arith) in
    rw e (elim (Bool-cases (x / 10 == 0)) [
      | inl z ↦ rw z (one_digit 0 (x % 10) (omega arith) (omega arith) ∙ ground arith)
      | inr z ↦ rw z (
          parse_loop-append 0 (backwards (digits_loop fuel 10 (x / 10))) _
            (AllDigits-backwards _ (digits_loop-AllDigits fuel (x / 10)))
          ∙ (ap (λ n. parse_loop n ((48 + x % 10) ∷ []))
                (read_back fuel (x / 10) (omega arith) (omega arith))
              ∙ (one_digit (x / 10) (x % 10) (omega arith) (omega arith) ∙ omega arith)))
    ])

append_nil : (s : List Char) → s ++ [] ≡ s
append_nil [] = refl
append_nil (c ∷ s) = ap (λ z. c ∷ z) (append_nil s)

pub convert_int_decimal : (x : ℕ) → x < uint → convert_int x 10 false ≡ digits_loop 10 10 x
unfolding convert_int
convert_int_decimal x h = append_nil (decimal_loop 10 x) ∙ decimal_loop_digits 10 x h

-- What mPrintInt prints in base 10 for a number below 2 ^ 31, mStringToInt reads back as that number.
pub string_to_int-print_int : (x : ℕ) → x < 2 ^ 31 → string_to_int (print_int x 10 false) ≡ x
unfolding string_to_int print_int
string_to_int-print_int x h =
    ap (λ s. parse_loop 0 (backwards s)) (convert_int_decimal x (omega arith))
    ∙ read_back 10 x (omega arith) (omega arith)
