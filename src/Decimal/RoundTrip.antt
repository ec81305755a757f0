-- ===== src/Decimal/RoundTrip.antt =====
-- `atoi` reads what `std::to_string` prints.
use Prim.Native.Char.{code}
use Prim.Native.String.{◌∷◌}
use hm_music_player_back_end.Prelude.{
  ℕ, zero, suc, ◌+◌, ◌*◌, ◌/◌, ◌%◌, ◌^◌, ◌<◌, ◌≤◌, ℤ, pos, negsuc, String, some, nat_eq, ◌≡◌, refl,
  arith, holds_below_sound, nat_eq→eq, Bool-cases, inl, inr, false,
}
use hm_music_player_back_end.Decimal.{digit, emit, to_string, scan, to_int, atoi}

code-digit : (n : ℕ) → n < 10 → code (digit n) ≡ b'0' + n
code-digit n h =
    nat_eq→eq _ _ (holds_below_sound 10 (λ x. nat_eq (code (digit x)) (b'0' + x)) n refl h)

scan-digit : (acc n : ℕ) (s : String) → n < 10 → scan acc (digit n ∷ s) ≡ scan (acc * 10 + n) s
unfolding scan
scan-digit acc n s h = ground (arith, code-digit n h)

scan-emit : (fuel n : ℕ) (out : String) → n < fuel → scan 0 (emit fuel n out) ≡ scan n out
unfolding emit
scan-emit zero n out h = elim h [ ]
scan-emit (suc fuel) n out h = ground (
  arith,
  scan-emit fuel (n / 10) (digit (n % 10) ∷ out),
  scan-digit (n / 10) (n % 10) out,
  scan-digit 0 (n % 10) out,
)

-- The first character of a number is a digit.
emit-head :
    (fuel n : ℕ) (out : String)
    → n < fuel
    → (m : ℕ) × (s : String) × (m < 10) × (emit fuel n out ≡ digit m ∷ s)
unfolding emit
emit-head zero n out h = elim h [ ]
emit-head (suc fuel) n out h = elim (Bool-cases (nat_eq (n / 10) 0)) [
  | inl last ↦ (n % 10, out, omega arith, rw last)
  | inr more ↦ rw more (emit-head fuel (n / 10) _ (ground arith))
]

-- The values of a 32-bit int.
abbrev pub IsInt : ℤ → Type 0
IsInt (pos n) = n < 2 ^ 31
IsInt (negsuc n) = suc n ≤ 2 ^ 31

-- A text that begins with a digit has no blank and no sign in front.
atoi-digit :
    (m : ℕ) (s : String) → m < 10 → atoi (digit m ∷ s) ≡ to_int false (scan 0 (digit m ∷ s))
unfolding atoi
atoi-digit m s h = ground (arith, code-digit m h)

-- What std::to_string prints of an int, as handleLogin puts it in a token, atoi reads back, as the
-- other handlers do.
pub atoi-to_string : (i : ℤ) → IsInt i → atoi (to_string i) ≡ some i
unfolding to_string
atoi-to_string (pos n) h =
    let (m, s, small, e) = emit-head (suc n) n "" (omega arith) in
    let same = scan-emit (suc n) n "" (omega arith) in
    rw (e, atoi-digit m s small, ← e, same) (unfold scan in ground arith)
atoi-to_string (negsuc n) h =
    let same = scan-emit (suc (suc n)) (suc n) "" (omega arith) in
    unfold atoi in rw same (unfold scan in ground arith)
