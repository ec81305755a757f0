-- ===== src/Email/Codes.antt =====
-- What `generateVerificationCode` draws, and whether a mail is delivered.
use Prim.Native.String.{◌++◌}
use hm_music_player_back_end.Prelude.{
  ℕ, zero, suc, ◌+◌, pos, String, ◌≡◌, refl, ap, Bool, Bool-cases, inl, inr, ◌&&◌, arith,
}
use hm_music_player_back_end.Prelude.Effect.{ok}
use hm_music_player_back_end.External.{External, Message}
use hm_music_player_back_end.Decimal.{to_string}
use hm_music_player_back_end.App.{World, roll}
use hm_music_player_back_end.Email.{
  send_text_email, generate_verification_code, digits_from, curl_call, cleanup, settings_message,
  perform,
}

-- The digits of `n` draws, the first of which has the number `at`, behind `code`.
abbrev pub drawn : (ℕ → ℕ) → ℕ → ℕ → String → String
drawn dice at zero code = code
drawn dice at (suc n) code = drawn dice (suc at) n (code ++ to_string (pos (dice at)))

-- Whether libcurl gives a handle and then delivers a message.
abbrev pub delivered : (e : External) → Message → e.curl.Net → Bool
delivered e message net =
    (e.curl.easy_init net).1 && (e.curl.easy_perform message (e.curl.easy_init net).0).1

module _ {e : External} where
  digits_from-drawn :
      (n : ℕ) (code : String) (w : World e)
      → digits_from n code w ≡ (ok (drawn w.dice w.rolls n code), record w { rolls = w.rolls + n })
  unfolding digits_from roll
  digits_from-drawn zero code w = ap (λ k. (ok code, record w { rolls = k })) (omega arith)
  digits_from-drawn (suc n) code w =
      rw
        (digits_from-drawn n (code ++ to_string (pos (w.dice w.rolls)))
          (record w { rolls = suc w.rolls }))
        (ap
          (λ k. (
            ok (drawn w.dice (suc w.rolls) n (code ++ to_string (pos (w.dice w.rolls)))),
            record w { rolls = k },
          ))
          (omega arith))

  pub generate_verification_code-drawn :
      (n : ℕ) (w : World e)
      → generate_verification_code n w
        ≡ (ok (drawn w.dice w.rolls n ""), record w { rolls = w.rolls + n })
  unfolding generate_verification_code
  generate_verification_code-drawn n w = digits_from-drawn n "" w

  perform-delivered :
      (message : Message) (w : World e)
      → (n : e.curl.Net) × (perform message w
          ≡ (ok (delivered e message w.net), record w { net = n }))
  unfolding perform curl_call cleanup
  perform-delivered message w = elim (Bool-cases (e.curl.easy_init w.net).1) [
    | inl i ↦ elim (Bool-cases (e.curl.easy_perform message (e.curl.easy_init w.net).0).1) [
      | inl p ↦ (
        e.curl.easy_cleanup (e.curl.easy_perform message (e.curl.easy_init w.net).0).0,
        rw (i, p) refl,
      )
      | inr p ↦ ((e.curl.easy_perform message (e.curl.easy_init w.net).0).0, rw (i, p) refl)
    ]
    | inr i ↦ ((e.curl.easy_init w.net).0, rw i refl)
  ]

  pub send_text_email-delivered :
      (to subject body : String) (w : World e)
      → (n : e.curl.Net) × (send_text_email to subject body w
          ≡ (ok (delivered e (settings_message w to subject body) w.net), record w { net = n }))
  unfolding send_text_email
  send_text_email-delivered to subject body w =
      perform-delivered (settings_message w to subject body) w
