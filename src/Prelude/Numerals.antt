-- ===== src/Prelude/Numerals.antt =====
-- `str` of a natural number.
use Prim.Native.Nat.{ℕ, zero, suc, ◌/◌, ◌%◌}
use Prim.Native.String.{String}
use agentic_test_system.Prelude.Tests.{nat_eq, leb, ◌==◌, if◌then◌else◌}
use agentic_test_system.Prelude.Text.{◌<>◌}
use agentic_test_system.Prelude.Int.{ℤ, pos, negsuc}

digit : ℕ → String
digit n =
    if n == 0
    then "0"
    else if n == 1
    then "1"
    else if n == 2
    then "2"
    else if n == 3
    then "3"
    else if n == 4
    then "4"
    else if n == 5
    then "5"
    else if n == 6
    then "6"
    else if n == 7
    then "7"
    else if n == 8
    then "8"
    else "9"

digits : ℕ → ℕ → String
unfolding digit
digits zero n = ""
digits (suc fuel) n =
    let rest = digits fuel (n / 10) in if leb n 9 then digit n else rest <> digit (n % 10)

-- `f"{n}"`.
unfoldable pub shown : ℕ → String
unfolding digits
shown n = digits (suc n) n

-- The same of an integer.
unfoldable pub shown_int : ℤ → String
unfolding shown
shown_int (pos n) = shown n
shown_int (negsuc n) = "-" <> shown (suc n)
