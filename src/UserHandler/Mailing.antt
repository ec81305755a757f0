-- ===== src/UserHandler/Mailing.antt =====
-- A verification code that is asked for by mail, followed by the registration with it.
use hm_music_player_back_end.Prelude.{
  ℤ, lt_int, int_eq, String, ◌≡◌, refl, sym, ◌∙◌, ◌⊎◌, inl, inr, true, false, ◌&&◌, some, [], ◌∷◌,
  ◌++◌, eq_refl,
}
use hm_music_player_back_end.Prelude.Effect.{ok}
use hm_music_player_back_end.External.{External, done}
use hm_music_player_back_end.Models.{no_user}
use hm_music_player_back_end.Password.{hash_password}
use hm_music_player_back_end.App.{World}
use hm_music_player_back_end.App.Steady.{HasFront}
use hm_music_player_back_end.Email.Codes.{drawn}
use hm_music_player_back_end.Http.{
  HttpRequest, success, internal_server_error, response, DumpsAscii, ascii_init, ascii_inits,
}
use hm_music_player_back_end.Http.Steady.{error_ascii_response, respond_ascii_response}
use hm_music_player_back_end.VerifyService.{accepts, verifies}
use hm_music_player_back_end.VerifyService.Calls.{send_verify_code}
use hm_music_player_back_end.VerifyService.Calls.Table.{entry, send_verify_code_lem}
use hm_music_player_back_end.UserDao.Table.{UserTable, any}
use hm_music_player_back_end.UserDao.Accounts.{is_taken}
use hm_music_player_back_end.UserHandler.{
  catch_errors, field, message_and, email_pattern, is_valid_email,
}
use hm_music_player_back_end.UserHandler.Codes.{
  get_verify_code, handle_get_verify_code, handle_register,
}
use hm_music_player_back_end.UserHandler.Registration.{IsRegistration, handle_register_accepted}

-- A body with the two fields, whose address has the form of one.
pub record IsCodeRequest (e : External) (body email action : String) : Type 0 where
  pub json : e.json.Json
  pub parses : e.json.parse body ≡ some json
  pub has_email : e.json.contains "email" json ≡ true
  pub has_action : e.json.contains "action" json ≡ true
  pub reads_email : e.json.get_string "email" json ≡ some email
  pub reads_action : e.json.get_string "action" json ≡ some action
  pub well_formed : e.regex_match email_pattern email ≡ done true

module _ {e : External} (dumps : DumpsAscii e) (req : HttpRequest) {email : String}
    (asked : IsCodeRequest e req.body email "register") (w : World e) where
  -- Answered by 200, the new code is in force; else the mail was not sent, and it is 500.
  handle_get_verify_code_lem :
      ((body : String) × ((handle_get_verify_code req w).0
          ≡ ok (response internal_server_error req.version body)))
      ⊎ ((act code : String) (t : ℤ)
          → verifies (handle_get_verify_code req w).1.codes t email act code
            ≡ accepts (entry w "register") t act code)
  unfolding handle_get_verify_code catch_errors get_verify_code field is_valid_email
  handle_get_verify_code_lem = elim (send_verify_code_lem email "register" w) [
    | inl (delivered, sent, judged) ↦
        let (s, b) =
          respond_ascii_response dumps req.version (message_and "Verification code sent" [])
            (send_verify_code email "register" w).1 (unfold ascii_init ascii_inits in refl) in
        inr (λ act code t.
          rw
            (
              asked.parses, asked.has_email, asked.has_action, asked.reads_email,
              asked.reads_action, asked.well_formed, sent, b,
            )
            (judged email act code t ∙ rw (eq_refl email) refl))
    | inr (undelivered, unsent, same) ↦
        let (s, b) =
          error_ascii_response dumps internal_server_error req.version
            "Failed to send verification code" (send_verify_code email "register" w).1 refl in
        inl (
          s,
          rw
              (
                asked.parses, asked.has_email, asked.has_action, asked.reads_email,
                asked.reads_action, asked.well_formed, unsent, b,
              )
              refl,
        )
  ]

  -- Over a table of users that keeps MySQL's laws, with a connection at hand: where a request for
  -- a code to register, for an address that the regex accepts, is answered by 200, a later
  -- registration with that address and the six digits that were drawn, not after the expiry and
  -- while the table of codes is the same, for a name and an address that are free and, with the
  -- hash, fit their columns, is answered by 200, and exactly one account is added, with the name,
  -- the address, the hash of the password and an id that no account had. Condition: ASCII texts
  -- can be dumped.
  pub code_then_register :
      (t : UserTable e.sql) (body : String)
      → (handle_get_verify_code req w).0 ≡ ok (response success req.version body)
      → (req' : HttpRequest) {username password code : String}
        (asked' : IsRegistration e req'.body username password email code) (w' : World e)
        (f' : HasFront w'.pool.connections)
      → code ≡ drawn w.dice w.rolls 6 ""
      → w'.codes ≡ (handle_get_verify_code req w).1.codes
      → lt_int (entry w "register").expire_time (w'.clock w'.reads) ≡ false
      → t.fits 50 username && (t.fits 255 (hash_password e password) && t.fits 50 email) ≡ true
      → is_taken t w' f'.0 f'.1 f'.2
          (record no_user { username = username; passwd_hash = password; email = email })
        ≡ false
      → (body' : String) × (s : t.Stored) × ((handle_register req' w').0
          ≡ ok (response success req'.version body'))
        × (t.rows (handle_register req' w').1.db ≡ t.rows w'.db ++ s ∷ [])
        × (t.account s ≡ record {
          id = (t.account s).id;
          username = username;
          passwd_hash = hash_password e password;
          email = email;
          qq_id = "";
          netease_id = "";
        })
        × (any (λ r. int_eq (t.account r).id (t.account s).id) (t.rows w'.db) ≡ false)
  unfolding accepts
  code_then_register t body sent req' {code = code} asked' w' f' mailed same early fit free =
      elim handle_get_verify_code_lem [
        | inl (s, refused) ↦ absurd (let clash = sym refused ∙ sent in cc)
        | inr judged ↦
            let good : verifies w'.codes (w'.clock w'.reads) email "register" code ≡ true =
              rw same (
                judged "register" code (w'.clock w'.reads)
                ∙ rw (early, mailed, eq_refl (drawn w.dice w.rolls 6 "")) refl) in
            handle_register_accepted dumps req' asked' w' t f' good fit free
      ]
