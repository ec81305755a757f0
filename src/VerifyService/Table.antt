-- ===== src/VerifyService/Table.antt =====
-- Laws of the table of verification codes.
use hm_music_player_back_end.Prelude.{
  ℕ, suc, ◌+◌, ℤ, lt_int, String, ◌≡◌, refl, false, [], ◌∷◌, arith, length, All, eq_iff,
  if◌then◌else◌, none, some,
}
use hm_music_player_back_end.Prelude.Dict.{find, assign, find-assign}
use hm_music_player_back_end.VerifyService.{VerifyInfo, Codes, verifies, cleanup_from, cleanup}

-- No two entries share an address, as in a std::map.
abbrev pub Distinct : Codes → Type 0
Distinct [] = Unit {0}
Distinct ((email, info) ∷ codes) = (find email codes ≡ none) × Distinct codes

pub assign-Distinct :
    (email : String) (info : VerifyInfo) (codes : Codes)
    → Distinct codes
    → Distinct (assign email info codes)
assign-Distinct email info [] d = (refl, tt)
assign-Distinct email info ((k, v) ∷ codes) d = ground (
  arith,
  eq_iff k email,
  eq_iff email k,
  find-assign email k info codes,
  assign-Distinct email info codes,
)

-- The entries that are still in force at `now`, in order.
abbrev pub live : ℤ → Codes → Codes
live now [] = []
live now ((email, info) ∷ codes) =
    let rest = live now codes in if lt_int info.expire_time now then rest else (email, info) ∷ rest

cleanup_from_lem :
    (now : ℤ) (count : ℕ) (codes : Codes)
    → ((cleanup_from now count codes).0 ≡ live now codes)
      × ((cleanup_from now count codes).1 + length (live now codes) ≡ count + length codes)
unfolding cleanup_from
cleanup_from_lem now count [] = (refl, refl)
cleanup_from_lem now count ((email, info) ∷ codes) =
    ground (arith, cleanup_from_lem now count codes, cleanup_from_lem now (suc count) codes)

find-live-none :
    (now : ℤ) (email : String) (codes : Codes)
    → find email codes ≡ none
    → find email (live now codes) ≡ none
find-live-none now email [] e = refl
find-live-none now email ((k, v) ∷ codes) e = ground (arith, find-live-none now email codes)

live-Distinct : (now : ℤ) (codes : Codes) → Distinct codes → Distinct (live now codes)
live-Distinct now [] d = tt
live-Distinct now ((k, v) ∷ codes) d =
    ground (arith, find-live-none now k codes, live-Distinct now codes)

verifies-live :
    (now later : ℤ) (email action code : String) (codes : Codes)
    → Distinct codes
    → lt_int later now ≡ false
    → verifies (live now codes) later email action code ≡ verifies codes later email action code
unfolding verifies
verifies-live now later email action code [] d h = refl
verifies-live now later email action code ((k, v) ∷ codes) d h = ground (
  arith,
  eq_iff k email,
  find-live-none now email codes,
  verifies-live now later email action code codes,
)

find-live :
    (now : ℤ) (email : String) (codes : Codes) (info : VerifyInfo)
    → Distinct codes
    → find email codes ≡ some info
    → find email (live now codes) ≡ (if lt_int info.expire_time now then none else some info)
find-live now email [] info d f = cc
find-live now email ((k, v) ∷ codes) info d f =
    ground (arith, eq_iff k email, find-live-none now email codes, find-live now email codes info)

-- Of an address that has an entry, a clean-up leaves it or erases it by its expiry.
pub find-cleanup :
    (now : ℤ) (email : String) (codes : Codes) (info : VerifyInfo)
    → Distinct codes
    → find email codes ≡ some info
    → find email (cleanup now codes).0 ≡ (if lt_int info.expire_time now then none else some info)
unfolding cleanup
find-cleanup now email codes info d f =
    rw (cleanup_from_lem now 0 codes).0 (find-live now email codes info d f)

-- Whether an entry is in force at `now`.
abbrev pub IsLive : ℤ → String × VerifyInfo → Type 0
IsLive now p = lt_int (p.1).expire_time now ≡ false

live-IsLive : (now : ℤ) (codes : Codes) → All (IsLive now) (live now codes)
live-IsLive now [] = tt
live-IsLive now ((k, v) ∷ codes) = ground (arith, live-IsLive now codes)

-- On a table of distinct addresses the clean-up leaves only entries in force, the count that it
-- returns and the entries left make up the entries before, and addresses stay distinct.
pub cleanup_lem :
    (now : ℤ) (codes : Codes)
    → Distinct codes
    → All (IsLive now) (cleanup now codes).0
      × ((cleanup now codes).1 + length (cleanup now codes).0 ≡ length codes)
      × Distinct (cleanup now codes).0
unfolding cleanup
cleanup_lem now codes d =
    let (same, counted) = cleanup_from_lem now 0 codes in
    rw same (live-IsLive now codes, omega (arith, counted), live-Distinct now codes d)

-- In a table of distinct addresses a clean-up cannot be noticed: at any time not before it, the
-- table accepts what it would have accepted without it.
pub verifies-cleanup :
    (now later : ℤ) (email action code : String) (codes : Codes)
    → Distinct codes
    → lt_int later now ≡ false
    → verifies (cleanup now codes).0 later email action code
      ≡ verifies codes later email action code
unfolding cleanup
verifies-cleanup now later email action code codes d h =
    rw (cleanup_from_lem now 0 codes).0 (verifies-live now later email action code codes d h)
