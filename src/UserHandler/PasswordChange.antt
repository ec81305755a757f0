-- ===== src/UserHandler/PasswordChange.antt =====
-- A change of password followed by a login.
use hm_music_player_back_end.Prelude.{
  suc, ℤ, int_eq, int_eq_iff, String, ◌≡◌, refl, ap, ◌∙◌, true, some, [], ◌∷◌, map, if◌then◌else◌,
  arith,
}
use hm_music_player_back_end.Prelude.Effect.{ok}
use hm_music_player_back_end.External.{External, Claims, done}
use hm_music_player_back_end.Decimal.{to_string}
use hm_music_player_back_end.Password.{hash_password, verify_password}
use hm_music_player_back_end.App.{World}
use hm_music_player_back_end.App.Steady.{HasFront, rotated_front}
use hm_music_player_back_end.Http.{
  HttpRequest, success, response, set_field, DumpsAscii, respond, ascii_init, ascii_inits, is_ascii,
}
use hm_music_player_back_end.Jwt.{JwtUtil}
use hm_music_player_back_end.VerifyService.{verifies}
use hm_music_player_back_end.VerifyService.Calls.Table.{verify_code_lem}
use hm_music_player_back_end.UserDao.{update_password}
use hm_music_player_back_end.UserDao.Table.{UserTable, Account, keep}
use hm_music_player_back_end.UserDao.Accounts.{first, update_password_lem}
use hm_music_player_back_end.UserDao.Rows.{first-keep-changed}
use hm_music_player_back_end.UserDao.Connection.{call, sets_password, call_returns}
use hm_music_player_back_end.UserHandler.{catch_errors, field, message_and}
use hm_music_player_back_end.UserHandler.Codes.{change_password, handle_change_password}
use hm_music_player_back_end.UserHandler.Account.{handle_login}
use hm_music_player_back_end.UserHandler.Authorized.{
  IsAuthorized, verify_token-accepted, claimed_id-accepted,
}
use hm_music_player_back_end.UserHandler.Welcome.{verify_own}
use hm_music_player_back_end.UserHandler.Shown.{answer_of}
use hm_music_player_back_end.UserHandler.Login.{IsLogin, claims_of, handle_login_right}

-- A body with the three fields.
pub record IsChange (e : External) (body new_password email code : String) : Type 0 where
  pub json : e.json.Json
  pub parses : e.json.parse body ≡ some json
  pub has_password : e.json.contains "new_password" json ≡ true
  pub has_code : e.json.contains "verify_code" json ≡ true
  pub has_email : e.json.contains "email" json ≡ true
  pub reads_password : e.json.get_string "new_password" json ≡ some new_password
  pub reads_code : e.json.get_string "verify_code" json ≡ some code
  pub reads_email : e.json.get_string "email" json ≡ some email

-- An account under another hash, where it has the id.
abbrev pub rehash : ℤ → String → Account → Account
rehash id hash a = if int_eq a.id id then record a { passwd_hash = hash } else a

module _ {e : External} (dumps : DumpsAscii e) (t : UserTable e.sql) (util : JwtUtil)
    (req : HttpRequest) {new_password email code : String}
    (asked : IsChange e req.body new_password email code) {id : ℤ} (w : World e)
    (f : HasFront w.pool.connections) (h : IsAuthorized util req.authorization id w) where
  open t use {Stored, account, rows}

  handle_change_password_accepted :
      verifies w.codes (w.clock (suc (suc w.reads))) email "reset_password" code ≡ true
      → t.fits 255 (hash_password e new_password) ≡ true
      → (body : String) × ((handle_change_password util req w).0
          ≡ ok (response success req.version body))
        × HasFront (handle_change_password util req w).1.pool.connections
        × (map account (rows (handle_change_password util req w).1.db)
            ≡ map (rehash id (hash_password e new_password)) (map account (rows w.db)))
  unfolding handle_change_password catch_errors change_password field respond call
  handle_change_password_accepted good fit =
      let (c, cs, front) = f in
      let v : World e = record w { reads = suc (suc w.reads) } in
      let (n, judged) = verify_code_lem email "reset_password" code v in
      let u : World e = record v { reads = n } in
      let (updated, changed) = update_password_lem t u c cs front id new_password fit in
      let after = (call_returns (sets_password id new_password) u c cs front).1 in
      let (body, b) =
        dumps (message_and "Password changed successfully" [])
          (unfold ascii_init ascii_inits in refl) in
      let run : handle_change_password util req w
          ≡ (ok (response success req.version body), (update_password id new_password u).1) =
        rw
          (
            asked.parses,
            asked.has_password,
            asked.has_code,
            asked.has_email,
            verify_token-accepted h,
            h.named,
            claimed_id-accepted h v,
            asked.reads_password,
            asked.reads_code,
            asked.reads_email,
            judged,
            good,
            updated,
            b,
          )
          refl in
      (body, ap (λ p. p.0) run, rw (run, after) (rotated_front c cs), rw run changed)

  -- Over a table of users that keeps MySQL's laws, with a connection at hand: after a change of
  -- password with a valid token and a good code, to a password whose hash fits its column, a login
  -- with the name of the account and the new password is answered by 200 with, as Authorization, a
  -- token that jwt-cpp signed for its id, name and address, and as body the JSON of the account.
  -- Conditions: the times in the table are ASCII, ASCII texts and that JSON can be dumped, and the
  -- library signs for that id, name and address.
  pub change_then_login :
      (req' : HttpRequest) {username : String} (asked' : IsLogin e req'.body username new_password)
      (s : Stored)
      → first (keep (λ r. t.same (account r).username username) (rows w.db)) ≡ some s
      → (account s).id ≡ id
      → verifies w.codes (w.clock (suc (suc w.reads))) email "reset_password" code ≡ true
      → t.fits 255 (hash_password e new_password) ≡ true
      → ((c : Claims)
          → c.subject ≡ (account s).username
          → c.payload ≡ ("id", to_string id) ∷ ("email", (account s).email) ∷ []
          → (token : String) × (e.jwt.sign util.secret c ≡ done token))
      → ((create_at : String)
          → is_ascii create_at ≡ true
          → (body : String) × (e.json.dump (answer_of "Login successful" (account s) create_at)
              ≡ some body))
      → ((r : Stored) → is_ascii (t.create_at r) ≡ true)
      → (body body' token create_at : String) × (c : Claims) × ((handle_change_password util req
            w).0
          ≡ ok (response success req.version body))
        × (c.subject ≡ (account s).username)
        × (c.payload ≡ ("id", to_string id) ∷ ("email", (account s).email) ∷ [])
        × (e.jwt.sign util.secret c ≡ done token)
        × (e.json.dump (answer_of "Login successful" (account s) create_at) ≡ some body')
        × ((handle_login util req' (handle_change_password util req w).1).0
            ≡ ok (set_field "Authorization" token (response success req'.version body')))
  change_then_login req' {username} asked' s own known good fit signs shows times =
      let hash = hash_password e new_password in
      let w' = (handle_change_password util req w).1 in
      let (body, told, f', changed) = handle_change_password_accepted good fit in
      let (r, own', new) =
        first-keep-changed account (λ a. t.same a.username username) (rehash id hash)
          (λ a. ground arith) (rows w.db) (rows w'.db) s changed own in
      let q : int_eq (account s).id id ≡ true = (int_eq_iff _ _).1 known in
      let is : account r ≡ record (account s) { passwd_hash = hash } = new ∙ rw q refl in
      let name : (account r).username ≡ (account s).username =
        ap (λ (a : Account). a.username) is in
      let address : (account r).email ≡ (account s).email = ap (λ (a : Account). a.email) is in
      let i : (account r).id ≡ id = ap (λ (a : Account). a.id) is ∙ known in
      let right : verify_password e new_password (account r).passwd_hash ≡ true =
        rw is (verify_own e new_password) in
      let claims = claims_of t util req' asked' w' f' (account r) in
      let (token, signed) = signs claims name (rw (i, address) refl) in
      let (body', shown) = shows (t.create_at r) (times r) in
      (
        body,
        body',
        token,
        t.create_at r,
        claims,
        told,
        name,
        rw (i, address) refl,
        signed,
        shown,
        (handle_login_right t util req' asked' w' f' r token body' own' right signed
            (rw is shown)).0,
      )
