-- ===== src/VerifyService/Calls/Table.antt =====
-- What sending a code does to the table of codes.
use Prim.Native.String.{◌++◌}
use hm_music_player_back_end.Prelude.{
  ℕ, suc, ◌+◌, ℤ, ◌+ℤ◌, lt_int, String, ◌≡◌, ◌↔◌, ◌∙◌, sym, Bool, eq_iff, eq_refl, refl, ◌⊎◌, inl,
  inr, Bool-cases, true, false, if◌then◌else◌, none, some, Option, ◌==◌, arith,
}
use hm_music_player_back_end.Prelude.Dict.{find, assign, find-assign}
use hm_music_player_back_end.Prelude.Effect.{ok}
use hm_music_player_back_end.External.{External, Message}
use hm_music_player_back_end.App.{World, now}
use hm_music_player_back_end.Jwt.{seconds}
use hm_music_player_back_end.Email.{settings_message}
use hm_music_player_back_end.Email.Codes.{
  drawn, delivered, generate_verification_code-drawn, send_text_email-delivered,
}
use hm_music_player_back_end.VerifyService.{VerifyInfo, Codes, accepts, accepts_found, verifies}
use hm_music_player_back_end.VerifyService.Calls.{
  store, expiry_time, send_verify_code, judge, verify_code,
}

pub verifies-assign :
    (email other action code : String) (info : VerifyInfo) (now : ℤ) (codes : Codes)
    → verifies (assign email info codes) now other action code ≡ (
        if email == other
        then accepts info now action code
        else verifies codes now other action code)
unfolding verifies
verifies-assign email other action code info now codes =
    rw (find-assign email other info codes) (ground arith)

-- The entry of an address lets a code pass for an action at a time.
abbrev pub Passes : Codes → ℤ → String → String → String → Type 0
Passes codes t email action code =
    (info : VerifyInfo) × (find email codes ≡ some info)
    × (info.action ≡ action)
    × (info.code ≡ code)
    × (lt_int info.expire_time t ≡ false)

module _ {e : External} where
  -- The entry for a mail that is sent in this world.
  abbrev pub entry : World e → String → VerifyInfo
  entry w action = record {
    code = drawn w.dice w.rolls 6 "";
    expire_time = w.clock w.reads +ℤ seconds w.config.verification_code_expiry;
    action = action;
  }

  -- The mail with the code that is drawn in this world.
  abbrev pub code_mail : World e → String → Message
  code_mail w to_email = record {
    url = w.config.smtp_server_url;
    username = w.config.smtp_user;
    password = w.config.smtp_password;
    mail_from = w.config.email_from;
    recipient = to_email;
    content =
        "To: "
        ++ (to_email
            ++ ("\r\nFrom: "
                ++ (w.config.email_from
                    ++ ("\r\nSubject: "
                        ++ ("Verification Code"
                            ++ ("\r\n\r\n"
                                ++ ("Your verification code is: "
                                    ++ drawn w.dice w.rolls 6 "")))))));
  }

  -- sendVerifyCode asks libcurl for one mail, from the settings, to the address and with the six
  -- digits that it drew. If libcurl delivers it, the answer is true, and from then on the address
  -- is judged by the new code, action and expiry alone while every other address is judged as
  -- before; if not, it is false, and the table stays.
  pub send_verify_code_lem :
      (to_email action : String) (w : World e)
      → let r = send_verify_code to_email action w in
        ((delivered e (code_mail w to_email) w.net ≡ true)
          × (r.0 ≡ ok true)
          × ((other act code : String) (t : ℤ)
              → verifies r.1.codes t other act code ≡ (
                  if to_email == other
                  then accepts (entry w action) t act code
                  else verifies w.codes t other act code)))
        ⊎ ((delivered e (code_mail w to_email) w.net ≡ false)
            × (r.0 ≡ ok false)
            × (r.1.codes ≡ w.codes))
  unfolding send_verify_code store expiry_time now settings_message
  send_verify_code_lem to_email action w =
      let v : World e = record w { rolls = w.rolls + 6 } in
      let (n, h) =
        send_text_email-delivered to_email "Verification Code"
          ("Your verification code is: " ++ drawn w.dice w.rolls 6 "") v in
      elim (Bool-cases (delivered e (code_mail w to_email) w.net)) [
        | inl y ↦ inl (
          y,
          rw (generate_verification_code-drawn 6 w, h, y) refl,
          rw (generate_verification_code-drawn 6 w, h, y)
              (λ other act code t.
                verifies-assign to_email other act code (entry w action) t w.codes),
        )
        | inr y ↦ inr (
          y,
          rw (generate_verification_code-drawn 6 w, h, y) refl,
          rw (generate_verification_code-drawn 6 w, h, y) refl,
        )
      ]

  -- What verifyCode answers and leaves, in terms of the table and the time.
  pub verify_code_lem :
      (email action code : String) (w : World e)
      → (n : ℕ) × (verify_code email action code w
          ≡ (ok (verifies w.codes (w.clock w.reads) email action code), record w { reads = n }))
  unfolding verify_code judge verifies now
  verify_code_lem email action code w = go (find email w.codes)
    where
      go :
          (found : Option VerifyInfo)
          → (n : ℕ) × (judge found action code w
              ≡ (ok (accepts_found found (w.clock w.reads) action code), record w { reads = n }))
      go none = (w.reads, refl)
      go (some info) = (suc w.reads, refl)

  -- verifyCode always returns and changes nothing but the count of the reads of the clock. It
  -- gives true exactly where the table has an entry for the address whose action and code are
  -- those given and whose expiry is not before the time that it reads; the entry stays in the
  -- table.
  pub verify_code_accepts :
      (email action code : String) (w : World e)
      → (b : Bool) × (n : ℕ) × (verify_code email action code w ≡ (ok b, record w { reads = n }))
        × ((b ≡ true) ↔ Passes w.codes (w.clock w.reads) email action code)
  unfolding verify_code judge now accepts
  verify_code_accepts email action code w = go (find email w.codes) refl
    where
      go :
          (found : Option VerifyInfo)
          → find email w.codes ≡ found
          → (b : Bool) × (n : ℕ) × (verify_code email action code w
              ≡ (ok b, record w { reads = n }))
            × ((b ≡ true) ↔ Passes w.codes (w.clock w.reads) email action code)
      go none h = (
        false,
        w.reads,
        rw h refl,
        (λ q. cc, λ (info, f, a, c, t). absurd (let z = sym h ∙ f in cc)),
      )
      go (some info) h = (
        accepts info (w.clock w.reads) action code,
        suc w.reads,
        rw h refl,
        (
          λ q. (
            info,
            h,
            (eq_iff info.action action).0 (ground arith),
            (eq_iff info.code code).0 (ground arith),
            ground arith,
          ),
          λ (other, f, a, c, t).
              let same : other ≡ info = cc in
              let a' : info.action ≡ action = rw same at a in
              let c' : info.code ≡ code = rw same at c in
              let t' : lt_int info.expire_time (w.clock w.reads) ≡ false = rw same at t in
              rw (a', c', t', eq_refl action, eq_refl code) refl,
        ),
      )
