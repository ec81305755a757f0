-- ===== src/Decimal.antt =====
-- The numbers that the program prints with `std::to_string` and reads with `atoi`.
pub mod RoundTrip
use Prim.Native.Char.{Char, code}
use Prim.Native.String.{[], ◌∷◌}
use hm_music_player_back_end.Prelude.{
  ℕ, zero, suc, ◌+◌, ◌-◌, ◌*◌, ◌/◌, ◌%◌, ◌^◌, ℤ, pos, negsuc, String, Option, none, some, nat_eq,
  ltb, ◌||◌, ◌&&◌, not, Bool, true, false, if◌then◌else◌,
}

abbrev digit : ℕ → Char
digit n =
    if nat_eq n 0
    then "0"
    else if nat_eq n 1
    then "1"
    else if nat_eq n 2
    then "2"
    else if nat_eq n 3
    then "3"
    else if nat_eq n 4
    then "4"
    else if nat_eq n 5
    then "5"
    else if nat_eq n 6
    then "6"
    else if nat_eq n 7
    then "7"
    else if nat_eq n 8
    then "8"
    else "9"

-- The digits of a number before `out`. Each round drops a digit, so `suc n` rounds are enough.
emit : ℕ → ℕ → String → String
emit zero n out = out
emit (suc fuel) n out =
    let more = emit fuel (n / 10) (digit (n % 10) ∷ out) in
    if nat_eq (n / 10) 0 then digit (n % 10) ∷ out else more

unfoldable pub to_string : ℤ → String
unfolding emit
to_string (pos n) = emit (suc n) n ""
to_string (negsuc n) = "-" ∷ emit (suc (suc n)) (suc n) ""

abbrev is_digit : Char → Bool
is_digit c = not (ltb (code c) b'0') && not (ltb b'9' (code c))

-- The digits up to the first other character.
scan : ℕ → String → ℕ
scan n [] = n
scan n (c ∷ s) = let rest = scan (n * 10 + (code c - b'0')) s in if is_digit c then rest else n

-- A number of type int, or `none` for the undefined behaviour of a number out of its range.
abbrev to_int : Bool → ℕ → Option ℤ
to_int negative n =
    if negative
    then if ltb (2 ^ 31) n then none else if nat_eq n 0 then some (pos 0) else some (negsuc (n - 1))
    else if ltb n (2 ^ 31)
    then some (pos n)
    else none

-- A sign, or none, in front of the digits.
signed : String → Option ℤ
unfolding scan
signed [] = some (pos 0)
signed (c ∷ s) =
    if nat_eq (code c) b'-'
    then to_int true (scan 0 s)
    else if nat_eq (code c) b'+'
    then to_int false (scan 0 s)
    else to_int false (scan 0 (c ∷ s))

-- `isspace` in the C locale.
abbrev is_space : Char → Bool
is_space c = nat_eq (code c) 32 || not (ltb (code c) 9) && not (ltb 13 (code c))

unfoldable pub atoi : String → Option ℤ
unfolding signed
atoi [] = some (pos 0)
atoi (c ∷ s) = let rest = atoi s in if is_space c then rest else signed (c ∷ s)
