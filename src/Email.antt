-- ===== src/Email.antt =====
-- src/utils/EmailUtil.{h,cpp}.
pub mod Steady
pub mod Codes
pub mod Reading
use Prim.Native.String.{◌++◌}
use hm_music_player_back_end.Prelude.{
  ℕ, zero, suc, pos, String, Bool, true, false, not, if◌then◌else◌,
}
use hm_music_player_back_end.Prelude.Effect.{ok, pure, ◌>>=◌, ◌>>◌}
use hm_music_player_back_end.External.{External, Message}
use hm_music_player_back_end.Decimal.{to_string}
use hm_music_player_back_end.App.{World, App, roll}

module _ {e : External} where
  -- A call of libcurl.
  curl_call : (e.curl.Net → e.curl.Net × Bool) → App e Bool
  curl_call f w = let (n, b) = f w.net in (ok b, record w { net = n })

  cleanup : App e (Unit {0})
  cleanup w = (ok tt, record w { net = e.curl.easy_cleanup w.net })

  unfoldable pub settings_message : World e → String → String → String → Message
  settings_message w to subject body = record {
    url = w.config.smtp_server_url;
    username = w.config.smtp_user;
    password = w.config.smtp_password;
    mail_from = w.config.email_from;
    recipient = to;
    content =
        "To: "
        ++ (to
            ++ ("\r\nFrom: "
                ++ (w.config.email_from
                    ++ ("\r\nSubject: " ++ (subject ++ ("\r\n\r\n" ++ body))))));
  }

  -- The handle is cleaned up on the last path only.
  perform : Message → App e Bool
  unfolding curl_call cleanup
  perform message = do
    curl ← curl_call e.curl.easy_init
    if not curl then pure false else do
      sent ← curl_call (e.curl.easy_perform message)
      if not sent then pure false else cleanup >> pure true

  unfoldable pub send_text_email : String → String → String → App e Bool
  unfolding perform settings_message
  send_text_email to subject body w = perform (settings_message w to subject body) w

  digits_from : ℕ → String → App e String
  unfolding roll
  digits_from zero code = pure code
  digits_from (suc length) code = do
    digit ← roll
    digits_from length (code ++ to_string (pos digit))

  unfoldable pub generate_verification_code : ℕ → App e String
  unfolding digits_from
  generate_verification_code length = digits_from length ""
