-- ===== src/Email/Steady.antt =====
-- Sending a mail does nothing undefined.
use hm_music_player_back_end.Prelude.{ℕ, zero, suc, String, refl, Bool}
use hm_music_player_back_end.External.{External, Message}
use hm_music_player_back_end.App.Steady.{IsSteady, steady_rules, IsSteady-reads, IsSteady-quiet}
use hm_music_player_back_end.Email.{
  send_text_email, generate_verification_code, digits_from, curl_call, cleanup, settings_message,
  perform,
}

module _ {e : External} where
  curl_call-IsSteady : (f : e.curl.Net → e.curl.Net × Bool) → IsSteady (curl_call {e = e} f)
  unfolding curl_call
  curl_call-IsSteady f = IsSteady-quiet _ (λ w. tt) (λ w. refl)

  cleanup-IsSteady : IsSteady (cleanup {e = e})
  unfolding cleanup
  cleanup-IsSteady = IsSteady-quiet _ (λ w. tt) (λ w. refl)

  perform-IsSteady : (m : Message) → IsSteady (perform {e = e} m)
  unfolding perform
  perform-IsSteady m = search (steady_rules, curl_call-IsSteady, cleanup-IsSteady) depth 8

  pub send_text_email-IsSteady :
      (to subject body : String) → IsSteady (send_text_email {e = e} to subject body)
  unfolding send_text_email
  send_text_email-IsSteady to subject body =
      IsSteady-reads (λ w. settings_message w to subject body) perform perform-IsSteady

  digits_from-IsSteady : (n : ℕ) (code : String) → IsSteady (digits_from {e = e} n code)
  unfolding digits_from
  digits_from-IsSteady zero code = search steady_rules
  digits_from-IsSteady (suc n) code = search (steady_rules, digits_from-IsSteady n)

  pub generate_verification_code-IsSteady :
      (n : ℕ) → IsSteady (generate_verification_code {e = e} n)
  unfolding generate_verification_code
  generate_verification_code-IsSteady n = digits_from-IsSteady n ""
