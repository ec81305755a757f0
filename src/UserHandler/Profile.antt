-- ===== src/UserHandler/Profile.antt =====
-- Login followed by a request for the profile with the token that the login gave.
use hm_music_player_back_end.Prelude.{
  suc, ℤ, int_eq, lt_int, String, ◌≡◌, refl, true, false, Option, some, [], ◌∷◌,
}
use hm_music_player_back_end.Prelude.Dict.{find}
use hm_music_player_back_end.Prelude.Effect.{ok}
use hm_music_player_back_end.External.{External, Claims, done}
use hm_music_player_back_end.Decimal.{to_string}
use hm_music_player_back_end.Decimal.RoundTrip.{IsInt, atoi-to_string}
use hm_music_player_back_end.Password.{verify_password}
use hm_music_player_back_end.App.{World}
use hm_music_player_back_end.App.Steady.{HasFront}
use hm_music_player_back_end.Http.{HttpRequest, success, response, set_field, pair, respond}
use hm_music_player_back_end.Jwt.{JwtUtil}
use hm_music_player_back_end.Jwt.Tokens.{IsIssued, IsIssued-IsValid}
use hm_music_player_back_end.UserDao.Table.{UserTable, keep, user_of}
use hm_music_player_back_end.UserDao.Accounts.{first, get_user_by_id_lem}
use hm_music_player_back_end.UserHandler.{catch_errors, message_and, user_details}
use hm_music_player_back_end.UserHandler.Account.{
  handle_login, show_profile, get_profile, handle_get_profile,
}
use hm_music_player_back_end.UserHandler.Authorized.{
  IsAuthorized, verify_token-accepted, claimed_id-accepted,
}
use hm_music_player_back_end.UserHandler.Login.{IsLogin, owner, claims_of, handle_login_right}

module _ {e : External} (t : UserTable e.sql) (util : JwtUtil) where
  open t use {Stored, account, rows}

  -- The account with an id.
  abbrev pub holder : ℤ → World e → Option Stored
  holder id w = first (keep (λ s. int_eq (account s).id id) (rows w.db))

  pub handle_get_profile_lem :
      (req : HttpRequest) {id : ℤ} (w : World e) (f : HasFront w.pool.connections)
      (h : IsAuthorized util req.authorization id w) (s : Stored) (body : String)
      → holder id w ≡ some s
      → e.json.dump (
          message_and "User profile retrieved successfully"
            (pair "user" (user_details (user_of t s)) ∷ []))
        ≡ some body
      → (handle_get_profile util req w).0 ≡ ok (response success req.version body)
  unfolding handle_get_profile catch_errors get_profile show_profile respond
  handle_get_profile_lem req {id} w f h s body held dumped =
      let v : World e = record w { reads = suc (suc w.reads) } in
      let g = (get_user_by_id_lem t v f.0 f.1 f.2 id).0 in
      rw (verify_token-accepted h, h.named, claimed_id-accepted h v, g, held, dumped) refl

  -- The two times that verifyToken reads are not before the issue and not after the expiry.
  abbrev pub InForce : ℤ → ℤ → World e → Type 0
  InForce issued_at expires_at w =
      (lt_int (w.clock w.reads) issued_at ≡ false)
      × (lt_int expires_at (w.clock w.reads) ≡ false)
      × (lt_int expires_at (w.clock (suc w.reads)) ≡ false)

  -- A token that was signed for an account authorizes its user until the expiry.
  issued-IsAuthorized :
      (c : Claims) (token : String) (id : ℤ) (w : World e)
      → c.issuer ≡ util.issuer
      → find "id" c.payload ≡ some (to_string id)
      → IsInt id
      → (i : IsIssued e.jwt util.secret c token) → InForce c.issued_at i.expires_at w
      → IsAuthorized util token id w
  unfolding IsIssued-IsValid
  issued-IsAuthorized c token id w same named small i (late, early, early') = record {
    valid = IsIssued-IsValid util c token w same i late early early';
    named = rw i.text i.nonempty;
    claim = to_string id;
    claims = rw (i.text, i.decodes) (i.keeps "id" (to_string id) named);
    reads_id = atoi-to_string id small;
  }

  -- Over a table of users that keeps MySQL's laws, with a connection at hand each time: a login
  -- with the right password is answered by 200 with the token that jwt-cpp signs, and a later
  -- request for the profile with that token, until it expires and while the account is the same,
  -- is answered by 200 with the user of that account. Conditions: jwt-cpp accepts and reads back
  -- what it signed, the id is an int, and the user can be dumped.
  pub login_then_profile :
      (req req' : HttpRequest) {username password : String}
      (asked : IsLogin e req.body username password) (w w' : World e)
      (f : HasFront w.pool.connections) (f' : HasFront w'.pool.connections) (s : Stored)
      (token body body' : String)
      → owner t util req asked w f ≡ some s
      → verify_password e password (account s).passwd_hash ≡ true
      → e.jwt.sign util.secret (claims_of t util req asked w f (account s)) ≡ done token
      → e.json.dump (message_and "Login successful" (pair "user" (user_details (user_of t s)) ∷ []))
        ≡ some body
      → e.json.dump (
          message_and "User profile retrieved successfully"
            (pair "user" (user_details (user_of t s)) ∷ []))
        ≡ some body'
      → IsInt (account s).id
      → (i : IsIssued e.jwt util.secret (claims_of t util req asked w f (account s)) token)
      → InForce (w.clock w.reads) i.expires_at w'
      → holder (account s).id w' ≡ some s
      → req'.authorization ≡ token
      → ((handle_login util req w).0
          ≡ ok (set_field "Authorization" token (response success req.version body)))
        × ((handle_get_profile util req' w').0 ≡ ok (response success req'.version body'))
  login_then_profile req req' asked w w' f f' s token body body' own right signed shown shown' small
        i times held sent =
      let h =
        issued-IsAuthorized (claims_of t util req asked w f (account s)) token (account s).id w'
          refl refl small i times in
      (
        (handle_login_right t util req asked w f s token body own right signed shown).0,
        handle_get_profile_lem req' w' f' (rw sent h) s body' held shown',
      )
