-- ===== src/VerifyService/Calls.antt =====
-- src/server/VerifyService.cpp: the methods of the service.
pub mod Steady
pub mod Table
use Prim.Native.String.{◌++◌}
use hm_music_player_back_end.Prelude.{
  ℕ, ℤ, ◌+ℤ◌, String, Bool, true, false, not, Option, none, some, if◌then◌else◌,
}
use hm_music_player_back_end.Prelude.Dict.{find, assign}
use hm_music_player_back_end.Prelude.Effect.{ok, pure, ◌>>=◌, ◌>>◌}
use hm_music_player_back_end.External.{External}
use hm_music_player_back_end.App.{World, App, now}
use hm_music_player_back_end.Jwt.{seconds}
use hm_music_player_back_end.Email.{send_text_email, generate_verification_code}
use hm_music_player_back_end.VerifyService.{VerifyInfo, accepts, cleanup}

module _ {e : External} where
  -- `m_codes[to_email] = {…}` under the lock.
  store : String → VerifyInfo → App e (Unit {0})
  store to_email info w = (ok tt, record w { codes = assign to_email info w.codes })

  expiry_time : App e ℤ
  expiry_time w = (ok (seconds w.config.verification_code_expiry), w)

  unfoldable pub send_verify_code : String → String → App e Bool
  unfolding store expiry_time now
  send_verify_code to_email action = do
    verify_code ← generate_verification_code 6
    sent ←
        send_text_email to_email "Verification Code" ("Your verification code is: " ++ verify_code)
    if not sent then pure false else do
      expiry ← expiry_time
      t ← now
      store to_email (record { code = verify_code; expire_time = t +ℤ expiry; action = action })
      pure true

  -- The clock is read once an entry is found.
  judge : Option VerifyInfo → String → String → App e Bool
  unfolding now accepts
  judge none action code = pure false
  judge (some info) action code = do t ← now; pure (accepts info t action code)

  unfoldable pub verify_code : String → String → String → App e Bool
  unfolding judge
  verify_code email action code w = judge (find email w.codes) action code w

  unfoldable pub sweep : ℤ → App e ℕ
  sweep t w = let (codes, count) = cleanup t w.codes in (ok count, record w { codes = codes })

  unfoldable pub cleanup_expired_codes : App e ℕ
  unfolding now sweep cleanup
  cleanup_expired_codes = do t ← now; sweep t
