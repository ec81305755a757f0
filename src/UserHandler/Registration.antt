-- ===== src/UserHandler/Registration.antt =====
-- `handleRegister` on a table of accounts.
use hm_music_player_back_end.Prelude.{
  ℕ, int_eq, String, ◌≡◌, refl, ◌∙◌, ap, Bool, true, false, ◌||◌, ◌&&◌, none, some, List, [], ◌∷◌,
  ◌++◌, arith,
}
use hm_music_player_back_end.Prelude.Effect.{ok}
use hm_music_player_back_end.External.{External, number}
use hm_music_player_back_end.Models.{User, no_user}
use hm_music_player_back_end.Password.{hash_password}
use hm_music_player_back_end.App.{World}
use hm_music_player_back_end.App.Steady.{HasFront, rotated_front}
use hm_music_player_back_end.App.Connection.{rotated}
use hm_music_player_back_end.Http.{
  HttpRequest, success, bad_request, response, DumpsAscii, pair, ascii_init, ascii_inits,
}
use hm_music_player_back_end.Http.Steady.{error_ascii_response, respond_ascii_response}
use hm_music_player_back_end.VerifyService.{verifies}
use hm_music_player_back_end.VerifyService.Calls.Table.{verify_code_lem}
use hm_music_player_back_end.UserDao.{get_user_by_username, create_user}
use hm_music_player_back_end.UserDao.Table.{UserTable, keep, any}
use hm_music_player_back_end.UserDao.Accounts.{
  first, is_taken, get_user_by_username-rotated, create_user_free,
}
use hm_music_player_back_end.UserHandler.{catch_errors, field, message_and}
use hm_music_player_back_end.UserHandler.Codes.{create_new, new_user, register, handle_register}

-- A body with the four fields.
pub record IsRegistration (e : External) (body username password email code : String) : Type 0 where
  pub json : e.json.Json
  pub parses : e.json.parse body ≡ some json
  pub has_username : e.json.contains "username" json ≡ true
  pub has_password : e.json.contains "password" json ≡ true
  pub has_email : e.json.contains "email" json ≡ true
  pub has_code : e.json.contains "verify_code" json ≡ true
  pub reads_username : e.json.get_string "username" json ≡ some username
  pub reads_password : e.json.get_string "password" json ≡ some password
  pub reads_email : e.json.get_string "email" json ≡ some email
  pub reads_code : e.json.get_string "verify_code" json ≡ some code

first-keep :
    {A : Type 0} (p q : A → Bool) (xs : List A)
    → any (λ x. p x || q x) xs ≡ false
    → first (keep p xs) ≡ none
first-keep p q [] h = refl
first-keep p q (x ∷ xs) h = ground (arith, first-keep p q xs)

module _ {e : External} (dumps : DumpsAscii e) (req : HttpRequest)
    {username password email code : String}
    (asked : IsRegistration e req.body username password email code) (w : World e) where
  -- Where ASCII texts can be dumped: a registration whose code the table of codes does not accept
  -- is answered by 400, and nothing changes but the count of the reads of the clock.
  pub handle_register_refused :
      verifies w.codes (w.clock w.reads) email "register" code ≡ false
      → (body : String) × (n : ℕ) × (handle_register req w
          ≡ (ok (response bad_request req.version body), record w { reads = n }))
  unfolding handle_register catch_errors register field
  handle_register_refused bad =
      let (n, judged) = verify_code_lem email "register" code w in
      let v : World e = record w { reads = n } in
      let (s, b) =
        error_ascii_response dumps bad_request req.version "Invalid verification code" v refl in
      (
        s,
        n,
        rw
            (
              asked.parses, asked.has_username, asked.has_password, asked.has_email, asked.has_code,
              asked.reads_username, asked.reads_password, asked.reads_email, asked.reads_code,
              judged, bad, b,
            )
            refl,
      )

  module _ (t : UserTable e.sql) (f : HasFront w.pool.connections) where
    open t use {Stored, account, rows}

    abbrev new : User
    new = record no_user { username = username; passwd_hash = password; email = email }

    looked_up :
        (v : World e) (c : ℕ) (cs : List ℕ)
        → v.pool.connections ≡ c ∷ cs
        → any
            (λ s. t.same (account s).username username || t.same (account s).email email)
            (rows v.db)
          ≡ false
        → (d : e.sql.Db) × (get_user_by_username username v ≡ (ok none, rotated c cs v d))
          × (rows d ≡ rows v.db)
    looked_up v c cs g free =
        let (d, lookup, same) = get_user_by_username-rotated t v c cs g username in
        let none_there =
          first-keep (λ s. t.same (account s).username username)
            (λ s. t.same (account s).email email) (rows v.db) free in
        (d, lookup ∙ rw none_there refl, same)

    -- Over a table of users that keeps MySQL's laws, with a connection at hand: a registration
    -- with a code that the table of codes accepts, for a name and an address that are free and,
    -- with the hash, fit their columns, is answered by 200, and exactly one account is added, with
    -- the name, the address, the hash of the password and an id that no account had.
    pub handle_register_accepted :
        verifies w.codes (w.clock w.reads) email "register" code ≡ true
        → t.fits 50 username && (t.fits 255 (hash_password e password) && t.fits 50 email) ≡ true
        → is_taken t w f.0 f.1 f.2 new ≡ false
        → (body : String) × (s : Stored) × ((handle_register req w).0
            ≡ ok (response success req.version body))
          × (rows (handle_register req w).1.db ≡ rows w.db ++ s ∷ [])
          × (account s ≡ record {
            id = (account s).id;
            username = username;
            passwd_hash = hash_password e password;
            email = email;
            qq_id = "";
            netease_id = "";
          })
          × (any (λ r. int_eq (account r).id (account s).id) (rows w.db) ≡ false)
    unfolding handle_register catch_errors register field new_user create_new
    handle_register_accepted good fit free =
        let (c, cs, front) = f in
        let (n, judged) = verify_code_lem email "register" code w in
        let v : World e = record w { reads = n } in
        let (d, lookup, same) = looked_up v c cs front free in
        let u : World e = rotated c cs v d in
        let (c', cs', front') = rotated_front c cs in
        let (s, created, grown, made, fresh) =
          create_user_free t u c' cs' front' new fit (rw same free) in
        let (body, b) =
          respond_ascii_response dumps req.version
            (message_and "User registered successfully"
              (pair "user_id" (number (account s).id) ∷ []))
            (create_user new u).1 (unfold ascii_init ascii_inits in refl) in
        let run : handle_register req w
            ≡ (ok (response success req.version body), (create_user new u).1) =
          rw
            (
              asked.parses, asked.has_username, asked.has_password, asked.has_email, asked.has_code,
              asked.reads_username, asked.reads_password, asked.reads_email, asked.reads_code,
              judged, good, lookup, created, b,
            )
            refl in
        (
          body,
          s,
          rw run refl,
          rw run (grown ∙ ap (λ (l : List Stored). l ++ s ∷ []) same),
          made,
          rw (← same) fresh,
        )
