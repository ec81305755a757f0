-- ===== src/UserHandler/Login.antt =====
-- `handleLogin` on a table of accounts.
use hm_music_player_back_end.Prelude.{
  ◌*◌, pos, ◌+ℤ◌, String, ◌≡◌, refl, true, false, Option, none, some, [], ◌∷◌, Option-cases,
  Bool-cases, inl, inr, if◌then◌else◌,
}
use hm_music_player_back_end.Prelude.Effect.{ok}
use hm_music_player_back_end.External.{External, Claims, done}
use hm_music_player_back_end.Decimal.{to_string}
use hm_music_player_back_end.Password.{verify_password}
use hm_music_player_back_end.App.{World, now}
use hm_music_player_back_end.App.Steady.{HasFront}
use hm_music_player_back_end.App.Connection.{rotated}
use hm_music_player_back_end.Http.{
  HttpRequest, Status, success, unauthorized, not_found, response, set_field, DumpsAscii, pair,
  respond,
}
use hm_music_player_back_end.Http.Steady.{error_ascii_response}
use hm_music_player_back_end.Jwt.{JwtUtil, generate_token, seconds}
use hm_music_player_back_end.UserDao.Table.{UserTable, Account, keep, user_of}
use hm_music_player_back_end.UserDao.Accounts.{first, get_user_by_username-rotated}
use hm_music_player_back_end.UserHandler.{catch_errors, field, message_and, user_details}
use hm_music_player_back_end.UserHandler.Account.{log_in, log_in_found, login, handle_login}

-- A body with the two fields.
pub record IsLogin (e : External) (body username password : String) : Type 0 where
  pub json : e.json.Json
  pub parses : e.json.parse body ≡ some json
  pub has_username : e.json.contains "username" json ≡ true
  pub has_password : e.json.contains "password" json ≡ true
  pub reads_username : e.json.get_string "username" json ≡ some username
  pub reads_password : e.json.get_string "password" json ≡ some password

module _ {e : External} (t : UserTable e.sql) (util : JwtUtil) (req : HttpRequest)
    {username password : String} (asked : IsLogin e req.body username password) (w : World e)
    (f : HasFront w.pool.connections) where
  open t use {Stored, account, rows}

  -- The account of the name.
  abbrev pub owner : Option Stored
  owner = first (keep (λ s. t.same (account s).username username) (rows w.db))

  -- The claims of the token for an account.
  abbrev pub claims_of : Account → Claims
  claims_of a = record {
    issuer = util.issuer;
    type = "JWT";
    issued_at = w.clock w.reads;
    expires_at = w.clock w.reads +ℤ seconds (pos (24 * 120 * 3600));
    subject = a.username;
    payload = ("id", to_string a.id) ∷ ("email", a.email) ∷ [];
  }

  handle_login_unknown :
      (dumps : DumpsAscii e)
      → owner ≡ none
      → (body : String) × (((handle_login util req w).0 ≡ ok (response not_found req.version body))
          × (rows (handle_login util req w).1.db ≡ rows w.db))
  unfolding handle_login catch_errors login log_in_found field
  handle_login_unknown dumps h =
      let (d, lookup, same) = get_user_by_username-rotated t w f.0 f.1 f.2 username in
      let (s, b) =
        error_ascii_response dumps not_found req.version "User not found" (rotated f.0 f.1 w d)
          refl in
      (
        s,
        rw
            (
              asked.parses, asked.has_username, asked.has_password, asked.reads_username,
              asked.reads_password, lookup, h, b,
            )
            (refl, same),
      )

  handle_login_wrong :
      (dumps : DumpsAscii e) (s : Stored)
      → owner ≡ some s
      → verify_password e password (account s).passwd_hash ≡ false
      → (body : String) × (((handle_login util req w).0
            ≡ ok (response unauthorized req.version body))
          × (rows (handle_login util req w).1.db ≡ rows w.db))
  unfolding handle_login catch_errors login log_in_found log_in field
  handle_login_wrong dumps a h bad =
      let (d, lookup, same) = get_user_by_username-rotated t w f.0 f.1 f.2 username in
      let (s, b) =
        error_ascii_response dumps unauthorized req.version "Incorrect password"
          (rotated f.0 f.1 w d) refl in
      (
        s,
        rw
            (
              asked.parses, asked.has_username, asked.has_password, asked.reads_username,
              asked.reads_password, lookup, h, bad, b,
            )
            (refl, same),
      )

  -- Why a login is refused, on the account of its name.
  abbrev pub refusal : Option Stored → Option Status
  refusal none = some not_found
  refusal (some s) =
      if verify_password e password (account s).passwd_hash then none else some unauthorized

  -- Over a table of users that keeps MySQL's laws, with a connection at hand and where ASCII texts
  -- can be dumped: a login for a name without account is answered by 404, one with a password
  -- whose hash is not that of the account by 401, and no account changes.
  pub handle_login_refused :
      (dumps : DumpsAscii e) (status : Status)
      → refusal owner ≡ some status
      → (body : String) × (((handle_login util req w).0 ≡ ok (response status req.version body))
          × (rows (handle_login util req w).1.db ≡ rows w.db))
  handle_login_refused dumps status h = elim (Option-cases owner) [
    | inl none_there ↦
        let is : not_found ≡ status = (let g = rw none_there at h in cc) in
        rw (← is) (handle_login_unknown dumps none_there)
    | inr (s, there) ↦ elim (Bool-cases (verify_password e password (account s).passwd_hash)) [
      | inl right ↦ absurd (let g = rw (there, right) at h in cc)
      | inr wrong ↦
          let is : unauthorized ≡ status = (let g = rw (there, wrong) at h in cc) in
          rw (← is) (handle_login_wrong dumps s there wrong)
    ]
  ]

  -- Over a table of users that keeps MySQL's laws, with a connection at hand: a login whose
  -- password has the hash of the account is answered by 200 with, as Authorization, what jwt-cpp
  -- signs with the secret for the id, name and address of the account and an expiry 120 days
  -- ahead; no account changes. Conditions: the library signs, and the user can be dumped.
  pub handle_login_right :
      (s : Stored) (token body : String)
      → owner ≡ some s
      → verify_password e password (account s).passwd_hash ≡ true
      → e.jwt.sign util.secret (claims_of (account s)) ≡ done token
      → e.json.dump (message_and "Login successful" (pair "user" (user_details (user_of t s)) ∷ []))
        ≡ some body
      → ((handle_login util req w).0
          ≡ ok (set_field "Authorization" token (response success req.version body)))
        × (rows (handle_login util req w).1.db ≡ rows w.db)
  unfolding handle_login catch_errors login log_in_found log_in field generate_token now respond
  handle_login_right a token body h good signed dumped =
      let (d, lookup, same) = get_user_by_username-rotated t w f.0 f.1 f.2 username in
      rw
        (
          asked.parses, asked.has_username, asked.has_password, asked.reads_username,
          asked.reads_password, lookup, h, good, signed, dumped,
        )
        (refl, same)
