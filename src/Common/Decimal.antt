-- ===== src/Common/Decimal.antt =====
-- Whole numbers as texts.
use Prim.Native.Nat.{ℕ, zero, suc, ◌/◌, ◌%◌}
use Prim.Native.String.{String, ◌++◌}
use py_net_ft.Common.Boolean.{◌==◌, if◌then◌else◌}
use py_net_ft.Common.Int.{ℤ, pos, negsuc}

-- `std::to_string`.
abbrev digit : ℕ → String
digit n =
    if n == 0
    then "0"
    else if n == 1
    then "1"
    else if n == 2
    then "2"
    else if n == 3
    then "3"
    else if n == 4
    then "4"
    else if n == 5
    then "5"
    else if n == 6
    then "6"
    else if n == 7
    then "7"
    else if n == 8
    then "8"
    else "9"

decimal_digits : ℕ → ℕ → String
decimal_digits zero n = ""
decimal_digits (suc more) n =
    let front = decimal_digits more (n / 10) in
    if n / 10 == 0 then digit (n % 10) else front ++ digit (n % 10)

unfoldable pub decimal : ℤ → String
unfolding decimal_digits
decimal (pos n) = decimal_digits (suc n) n
decimal (negsuc n) = "-" ++ decimal_digits (suc (suc n)) (suc n)
