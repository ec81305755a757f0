-- ===== src/Password/Digests.antt =====
-- What a hash tells of a password: the digits of `to_hex_string` can be read back.
use Prim.Native.Char.{Char, code}
use Prim.Native.String.{◌++◌}
use Prim.Native.String.append
use hm_music_player_back_end.Prelude.{
  ℕ, ◌+◌, ◌-◌, ◌*◌, ◌/◌, ◌%◌, ◌<◌, String, ◌≡◌, ◌↔◌, refl, sym, ap, ◌∙◌, Bool, true, false, List,
  [], ◌∷◌, eq_iff, ltb, nat_eq, nat_eq→eq, holds_below_sound, if◌then◌else◌, All, arith,
}
use hm_music_player_back_end.External.{External}
use hm_music_player_back_end.Password.{hex_digit, to_hex_string, hash_password, verify_password}

abbrev value : Char → ℕ
value c = if ltb (code c) 58 then code c - 48 else code c - 87

-- Pairs of digits as bytes.
abbrev bytes_of : String → List ℕ
bytes_of String.[] = []
bytes_of (String.◌∷◌ c String.[]) = []
bytes_of (String.◌∷◌ c (String.◌∷◌ d s)) = (value c * 16 + value d) ∷ bytes_of s

abbrev is_digit : ℕ → String → Bool
is_digit n String.[] = false
is_digit n (String.◌∷◌ c String.[]) = nat_eq (value c) n
is_digit n (String.◌∷◌ c s) = false

is_digit-hex_digit : (n : ℕ) → n < 16 → is_digit n (hex_digit n) ≡ true
unfolding hex_digit
is_digit-hex_digit n h = holds_below_sound 16 (λ x. is_digit x (hex_digit x)) n refl h

single : (c : Char) (s : String) → String.◌∷◌ c String.[] ++ s ≡ String.◌∷◌ c s
single c s =
    let front : String.◌∷◌ c String.[] ++ s ≡ String.◌∷◌ c (String.[] ++ s) =
      append.cons c String.[] s in
    let rest : String.[] ++ s ≡ s = append.nil s in front ∙ ap (String.◌∷◌ c) rest

bytes_of-digits :
    (a b : ℕ) (s t u : String)
    → is_digit a s ≡ true
    → is_digit b t ≡ true
    → bytes_of (s ++ (t ++ u)) ≡ (a * 16 + b) ∷ bytes_of u
bytes_of-digits a b String.[] t u h k = cc
bytes_of-digits a b (String.◌∷◌ c String.[]) String.[] u h k = cc
bytes_of-digits a b (String.◌∷◌ c String.[]) (String.◌∷◌ d String.[]) u h k =
    rw (single d u, single c (String.◌∷◌ d u), ← nat_eq→eq (value c) a h, ← nat_eq→eq (value d) b k)
      refl
bytes_of-digits a b (String.◌∷◌ c String.[]) (String.◌∷◌ d (String.◌∷◌ d' t)) u h k = cc
bytes_of-digits a b (String.◌∷◌ c (String.◌∷◌ c' s)) t u h k = cc

bytes_of-to_hex_string : (bs : List ℕ) → All (λ b. b < 256) bs → bytes_of (to_hex_string bs) ≡ bs
unfolding to_hex_string
bytes_of-to_hex_string [] small = refl
bytes_of-to_hex_string (b ∷ bs) small =
    let split : b / 16 * 16 + b % 16 ≡ b = omega arith in
    bytes_of-digits (b / 16) (b % 16) (hex_digit (b / 16)) (hex_digit (b % 16)) (to_hex_string bs)
      (is_digit-hex_digit (b / 16) (omega (arith, small.0)))
      (is_digit-hex_digit (b % 16) (omega arith))
    ∙ rw (split, bytes_of-to_hex_string bs small.1) refl

-- Where SHA-256 gives bytes: verifyPassword accepts a password against the hash of another exactly
-- where both have the same digest.
pub verify_password_lem :
    (e : External) (password other : String)
    → All (λ b. b < 256) (e.sha256 password)
    → All (λ b. b < 256) (e.sha256 other)
    → (verify_password e password (hash_password e other) ≡ true)
      ↔ (e.sha256 password ≡ e.sha256 other)
unfolding verify_password hash_password
verify_password_lem e password other small small' = (
  (λ h.
      let same =
        (eq_iff (to_hex_string (e.sha256 password)) (to_hex_string (e.sha256 other))).0 h in
      sym (bytes_of-to_hex_string (e.sha256 password) small)
      ∙ ap bytes_of same
      ∙ bytes_of-to_hex_string (e.sha256 other) small'),
  (λ h. (eq_iff _ _).1 (ap to_hex_string h)),
)
