-- ===== src/Prelude/Decimal.antt =====
-- `str(n)` of a number that is not negative.
use Prim.Native.Nat.{ℕ, zero, suc, ◌+◌, ◌/◌, ◌%◌}
use Prim.Native.String.{String, ◌++◌}
use mathlib.Core.Path.{◌≡◌, refl}
use whatsapp_automatic_plann.Prelude.Tests.{ltb, ◌==ℕ◌, if◌then◌else◌}

abbrev digit : ℕ → String
digit d =
    if d ==ℕ 0
    then "0"
    else if d ==ℕ 1
    then "1"
    else if d ==ℕ 2
    then "2"
    else if d ==ℕ 3
    then "3"
    else if d ==ℕ 4
    then "4"
    else if d ==ℕ 5
    then "5"
    else if d ==ℕ 6
    then "6"
    else if d ==ℕ 7
    then "7"
    else if d ==ℕ 8
    then "8"
    else "9"

-- The digits of `n`, with fuel above their number.
digits : ℕ → ℕ → String
digits zero n = ""
digits (suc fuel) n =
    let rest = digits fuel (n / 10) in if ltb n 10 then digit n else rest ++ digit (n % 10)

unfoldable pub decimal : ℕ → String
unfolding digits
decimal n = digits (n + 1) n

decimal_1050 : decimal 1050 ≡ "1050"
unfolding decimal
decimal_1050 = refl
