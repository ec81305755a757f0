-- ===== src/VerifyService.antt =====
-- src/server/VerifyService.{h,cpp}: the table of verification codes, as functions of the table and
-- of the time that the code reads. The methods, which read the
-- clock and send mail, stand in VerifyService/Calls.antt.
pub mod Table
pub mod Calls
pub mod Threads
use hm_music_player_back_end.Prelude.{
  ℕ, suc, ℤ, lt_int, String, Bool, false, not, ◌||◌, Option, none, some, List, [], ◌∷◌, ◌==◌,
  if◌then◌else◌,
}
use hm_music_player_back_end.Prelude.Dict.{find}

-- A time is a count of nanoseconds since the epoch.
pub record VerifyInfo : Type 0 where
  pub code : String
  pub expire_time : ℤ
  pub action : String

abbrev pub Codes : Type 0
Codes = List (String × VerifyInfo)

-- The test at the end of `verifyCode`, on the entry that was found.
unfoldable pub accepts : VerifyInfo → ℤ → String → String → Bool
accepts info now action code =
    not (lt_int info.expire_time now || not (info.action == action) || not (info.code == code))

pub accepts_found : Option VerifyInfo → ℤ → String → String → Bool
accepts_found none now action code = false
accepts_found (some info) now action code = accepts info now action code

-- `verifyCode` on a table, with the time that it reads after the search.
unfoldable pub verifies : Codes → ℤ → String → String → String → Bool
unfolding accepts accepts_found
verifies codes now email action code = accepts_found (find email codes) now action code

-- The loop of `cleanupExpiredCodes`, with its counter.
cleanup_from : ℤ → ℕ → Codes → Codes × ℕ
cleanup_from now count [] = ([], count)
cleanup_from now count ((email, info) ∷ codes) =
    let erased = cleanup_from now (suc count) codes in
    let (rest, n) = cleanup_from now count codes in
    if lt_int info.expire_time now then erased else ((email, info) ∷ rest, n)

unfoldable pub cleanup : ℤ → Codes → Codes × ℕ
unfolding cleanup_from
cleanup now codes = cleanup_from now 0 codes
