-- ===== src/Password.antt =====
-- src/utils/PasswordUtil.{h,cpp}. A std::string is a text whose characters are its bytes.
pub mod Digests
use Prim.Native.String.{◌++◌}
use hm_music_player_back_end.Prelude.{
  ℕ, ◌/◌, ◌%◌, String, Bool, List, [], ◌∷◌, ◌==◌, nat_eq, if◌then◌else◌,
}
use hm_music_player_back_end.External.{External}

-- A digit of `std::hex`.
pub hex_digit : ℕ → String
hex_digit n =
    if nat_eq n 0
    then "0"
    else if nat_eq n 1
    then "1"
    else if nat_eq n 2
    then "2"
    else if nat_eq n 3
    then "3"
    else if nat_eq n 4
    then "4"
    else if nat_eq n 5
    then "5"
    else if nat_eq n 6
    then "6"
    else if nat_eq n 7
    then "7"
    else if nat_eq n 8
    then "8"
    else if nat_eq n 9
    then "9"
    else if nat_eq n 10
    then "a"
    else if nat_eq n 11
    then "b"
    else if nat_eq n 12
    then "c"
    else if nat_eq n 13
    then "d"
    else if nat_eq n 14
    then "e"
    else "f"

-- `setw(2)` and `setfill('0')`: a byte has two digits.
unfoldable pub to_hex_string : List ℕ → String
unfolding hex_digit
to_hex_string [] = ""
to_hex_string (i ∷ bytes) = hex_digit (i / 16) ++ (hex_digit (i % 16) ++ to_hex_string bytes)

module _ (e : External) where
  unfoldable pub hash_password : String → String
  hash_password password = to_hex_string (e.sha256 password)

  unfoldable pub verify_password : String → String → Bool
  verify_password password hashed_password = hash_password password == hashed_password
