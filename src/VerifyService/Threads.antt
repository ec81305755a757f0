-- ===== src/VerifyService/Threads.antt =====
-- src/server/VerifyService.{h,cpp}: `verifyCode` among other threads. It gives the lock back after
-- the search and reads the entry, through a pointer, after that.
pub mod Pointer
use hm_music_player_back_end.Prelude.{
  ℤ, String, Bool, true, false, ◌&&◌, Option, none, some, List, [], ◌∷◌,
}
use hm_music_player_back_end.Prelude.Dict.{find, assign}
use hm_music_player_back_end.Prelude.Effect.{Result, ok, fault}
use hm_music_player_back_end.VerifyService.{VerifyInfo, Codes, accepts_found, cleanup}

-- What another thread does under the lock: the loop of `cleanupExpiredCodes`, with the time that
-- it read, or the assignment of `sendVerifyCode`.
pub data Other : Type 0 where
  sweeps : ℤ → Other
  stores : String → VerifyInfo → Other

-- Whether an address has an entry.
has_entry : Option VerifyInfo → Bool
has_entry none = false
has_entry (some info) = true

-- The table, and whether `pInfo` still points to the entry of the address. An erased entry does
-- not come back; an assignment to an address that has one writes into it.
unfoldable pub on_other : String → Other → Codes × Bool → Codes × Bool
unfolding has_entry
on_other email (sweeps t) (codes, valid) =
    let swept = (cleanup t codes).0 in (swept, valid && has_entry (find email swept))
on_other email (stores to_email info) (codes, valid) = (assign to_email info codes, valid)

unfoldable pub on_others : String → List Other → Codes × Bool → Codes × Bool
on_others email [] s = s
on_others email (o ∷ os) s = on_others email os (on_other email o s)

-- The last statements of `verifyCode`, at the time that they read.
read_info : Bool → Codes → ℤ → String → String → String → Result Bool
read_info true codes now email action code = ok (accepts_found (find email codes) now action code)
read_info false codes now email action code = fault

found_info : Option VerifyInfo → List Other → Codes → ℤ → String → String → String → Result Bool
found_info none others codes now email action code = ok false
found_info (some info) others codes now email action code =
    let (later, valid) = on_others email others (codes, true) in
    read_info valid later now email action code

-- `verifyCode`, with what other threads do between its two halves.
unfoldable pub verify_code_among : List Other → Codes → ℤ → String → String → String → Result Bool
unfolding found_info read_info
verify_code_among others codes now email action code =
    found_info (find email codes) others codes now email action code
