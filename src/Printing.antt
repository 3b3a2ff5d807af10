-- ===== src/Printing.antt =====
-- Numbers as text: util/mPrint.cpp, util/mPrintUtils.hpp and util/arithmetics.hpp. A string is the
-- list of its characters, without the null at its end; what is printed is the list of the characters
-- that putc is called with. An `int` is a number below 2 ^ 32, negative from 2 ^ 31 on. The locks
-- around the printing functions keep one call's characters together, and are left out.
pub mod Decimal
pub mod Fixed
mod Tests
use os1_proj.Prelude.{
  ℕ, zero, suc, ◌+◌, ◌-◌, ◌*◌, ◌/◌, ◌%◌, ◌^◌, true, false, ◌&&◌, ◌||◌, List, [], ◌∷◌, ◌++◌, Bool,
  ltb, leb, ◌==◌, if◌then◌else◌, ◌+w◌, ◌-w◌, ◌*w◌,
}

abbrev pub Char : Type 0
Char = ℕ

abbrev pub uint : ℕ
uint = 2 ^ 32

-- `digits` in mConvertInt
unfoldable pub digit : ℕ → Char
digit d = if ltb d 10 then 48 + d else 55 + d

-- `while (r < 0) q--, r+=10`: the quotient and the remainder. It runs at most once.
unfoldable pub settle : ℕ → (xl q : ℕ) → ℕ × ℕ
settle zero xl q = (q, xl - 10 * q)
settle (suc fuel) xl q =
    let rest = settle fuel xl (q - 1) in if ltb xl (10 * q) then rest else (q, xl - 10 * q)

abbrev pub factor_32 : ℕ
factor_32 = 429496730

-- The quotient and the remainder by 10, with a product in place of a division.
unfoldable pub divide_10 : ℕ → ℕ × ℕ
unfolding settle
divide_10 xl = settle 2 xl ((factor_32 *w xl) / 2 ^ 32)

-- The loop for base 10. A `uint` has ten digits at most.
unfoldable pub decimal_loop : ℕ → ℕ → List Char
unfolding divide_10 digit
decimal_loop zero xl = []
decimal_loop (suc fuel) xl =
    let (q, r) = divide_10 xl in
    let rest = decimal_loop fuel q in digit r ∷ (if q == 0 then [] else rest)

-- The loops for the other bases; for 16, 8, 4 and 2 a mask is a remainder, and a shift a division.
-- A `uint` has 32 digits at most.
unfoldable pub digits_loop : ℕ → (base x : ℕ) → List Char
unfolding digit
digits_loop zero base x = []
digits_loop (suc fuel) base x =
    let rest = digits_loop fuel base (x / base) in
    digit (x % base) ∷ (if x / base == 0 then [] else rest)

-- mConvertInt: what it writes to `buf`, the last digit first, and then the sign.
unfoldable pub convert_int : (xx base : ℕ) → (sgn : Bool) → List Char
unfolding decimal_loop digits_loop
convert_int xx base sgn =
    let neg = sgn && leb (2 ^ 31) xx in
    let x = if neg then (uint - xx) % uint else xx in
    if ltb base 2 || ltb 16 base
    then []
    else (if base == 10 then decimal_loop 10 x else digits_loop 32 base x)
      ++ (if neg then 45 ∷ [] else [])

unfoldable pub backwards : List Char → List Char
backwards [] = []
backwards (c ∷ cs) = backwards cs ++ c ∷ []

-- mPrintInt
unfoldable pub print_int : (xx base : ℕ) → (sgn : Bool) → List Char
unfolding convert_int backwards
print_int xx base sgn = backwards (convert_int xx base sgn)

-- The loop of mStringToInt, on `int`.
unfoldable pub parse_loop : ℕ → List Char → ℕ
parse_loop n [] = n
parse_loop n (c ∷ cs) =
    let rest = parse_loop ((n * 10 + c + uint - 48) % uint) cs in
    if leb 48 c && leb c 57 then rest else n

-- mStringToInt
unfoldable pub string_to_int : List Char → ℕ
unfolding parse_loop
string_to_int s = parse_loop 0 s

-- The loop of mGetString, on what getc gives: the characters stored, and those not read. `room` is
-- what `max` leaves.
unfoldable pub get_loop : (room : ℕ) → List Char → List Char × List Char
get_loop zero input = ([], input)
get_loop (suc room) [] = ([], [])
get_loop (suc room) (c ∷ input) =
    let (s, rest) = get_loop room input in
    if ltb c 1
    then ([], input)
    else if (c == 10) || (c == 13)
    then (c ∷ [], input)
    else (c ∷ s, rest)

-- mGetString
unfoldable pub get_string : (max : ℕ) → List Char → List Char × List Char
unfolding get_loop
get_string max input = get_loop (max - 1) input

-- countDigits
unfoldable pub count_loop : ℕ → (i x : ℕ) → ℕ
count_loop zero i x = i
count_loop (suc fuel) i x =
    let rest = count_loop fuel (i +w 1) (x / 10) in if x / 10 == 0 then i else rest

unfoldable pub count_digits : ℕ → ℕ
unfolding count_loop
count_digits x = count_loop 20 1 x

pub record Fractional : Type 0 where
  pub whole : ℕ
  pub part : ℕ
  pub zeros : ℕ

unfoldable pub power_10 : ℕ → ℕ
power_10 zero = 1
power_10 (suc i) = power_10 i *w 10

-- Fractional's constructor
unfoldable pub fractional : (dividend divisor decimal_places : ℕ) → Fractional
unfolding power_10 count_digits
fractional dividend divisor decimal_places =
    let f = power_10 decimal_places in
    let d = (dividend *w f) / divisor in
    record { whole = d / f; part = d % f; zeros = decimal_places -w count_digits (d % f) }

unfoldable pub zeros_loop : ℕ → List Char
zeros_loop zero = []
zeros_loop (suc i) = 48 ∷ zeros_loop i

-- mPrintFractional, mPrintPercent and mPrintPointer: an argument is cut off to an `int`.
unfoldable pub print_fractional : Fractional → List Char
unfolding print_int zeros_loop
print_fractional frac =
    print_int (frac.whole % uint) 10 false
    ++ 46 ∷ zeros_loop frac.zeros
    ++ print_int (frac.part % uint) 10 false

unfoldable pub print_percent : Fractional → List Char
unfolding print_fractional
print_percent percent = print_fractional percent ++ 37 ∷ []

unfoldable pub print_pointer : ℕ → List Char
unfolding print_int
print_pointer ptr = 48 ∷ 120 ∷ print_int (ptr % uint) 16 false

-- The variants of `log`, on what stands before the end of the line.
unfoldable pub log_int : List Char → (xx base : ℕ) → (sgn : Bool) → List Char
unfolding print_int
log_int string xx base sgn = string ++ print_int xx base sgn ++ 10 ∷ []

unfoldable pub log_fractional : List Char → Fractional → (percent : Bool) → List Char
unfolding print_percent
log_fractional string frac percent =
    string ++ (if percent then print_percent frac else print_fractional frac) ++ 10 ∷ []

unfoldable pub log_pointer : List Char → ℕ → List Char
unfolding print_pointer
log_pointer string p = string ++ print_pointer p ++ 10 ∷ []
