-- ===== src/VerifyService/Calls/Steady.antt =====
-- The methods of VerifyService do nothing undefined, one after another.
use hm_music_player_back_end.Prelude.{String, refl, Option, none, some}
use hm_music_player_back_end.Prelude.Dict.{find}
use hm_music_player_back_end.External.{External}
use hm_music_player_back_end.App.Steady.{IsSteady, steady_rules, IsSteady-reads, IsSteady-quiet}
use hm_music_player_back_end.Email.Steady.{
  send_text_email-IsSteady, generate_verification_code-IsSteady,
}
use hm_music_player_back_end.VerifyService.{VerifyInfo}
use hm_music_player_back_end.VerifyService.Calls.{
  store, expiry_time, send_verify_code, judge, verify_code,
}

module _ {e : External} where
  store-IsSteady : (email : String) (info : VerifyInfo) → IsSteady (store {e = e} email info)
  unfolding store
  store-IsSteady email info = IsSteady-quiet _ (λ w. tt) (λ w. refl)

  expiry_time-IsSteady : IsSteady (expiry_time {e = e})
  unfolding expiry_time
  expiry_time-IsSteady = IsSteady-quiet _ (λ w. tt) (λ w. refl)

  pub send_verify_code-IsSteady :
      (email action : String) → IsSteady (send_verify_code {e = e} email action)
  unfolding send_verify_code
  send_verify_code-IsSteady email action =
      search
        (
          steady_rules, send_text_email-IsSteady, generate_verification_code-IsSteady,
          store-IsSteady, expiry_time-IsSteady,
        )
        depth 12

  judge-IsSteady :
      (found : Option VerifyInfo) (action code : String)
      → IsSteady (judge {e = e} found action code)
  unfolding judge
  judge-IsSteady none action code = search steady_rules
  judge-IsSteady (some info) action code = search steady_rules

  pub verify_code-IsSteady :
      (email action code : String) → IsSteady (verify_code {e = e} email action code)
  unfolding verify_code
  verify_code-IsSteady email action code =
      IsSteady-reads (λ w. find email w.codes) (λ found. judge found action code)
        (λ found. judge-IsSteady found action code)
