-- ===== src/Printing/Tests.antt =====
-- The theorems about printed numbers at concrete ones.
use os1_proj.Prelude.{◌-◌, ◌≡◌, false, arith, length, word}
use os1_proj.Printing.{
  fractional, print_int, string_to_int, count_digits, digits_loop, decimal_loop,
}
use os1_proj.Printing.Decimal.{string_to_int-print_int, decimal_loop_digits}
use os1_proj.Printing.Fixed.{fractional_no_places, count_digits-length}

string_to_int-print_int_example : string_to_int (print_int 2024 10 false) ≡ 2024
string_to_int-print_int_example = string_to_int-print_int 2024 (omega arith)

decimal_loop_digits_example : decimal_loop 10 4294967295 ≡ digits_loop 10 10 4294967295
decimal_loop_digits_example = decimal_loop_digits 10 4294967295 (omega arith)

count_digits-length_example : count_digits 90210 ≡ length (digits_loop 20 10 90210)
count_digits-length_example = count_digits-length 90210 (omega arith)

fractional_no_places_example : (fractional 7 2 0).zeros ≡ word - 1
fractional_no_places_example = fractional_no_places 7 2
