-- ===== src/UserHandler/Welcome.antt =====
-- Registration followed by login.
use hm_music_player_back_end.Prelude.{
  ℤ, String, ◌≡◌, refl, ap, Bool, true, false, ◌||◌, ◌&&◌, some, List, [], ◌∷◌, ◌++◌, arith,
  eq_refl,
}
use hm_music_player_back_end.Prelude.Effect.{ok}
use hm_music_player_back_end.External.{External, Claims, done}
use hm_music_player_back_end.Models.{no_user}
use hm_music_player_back_end.Decimal.{to_string}
use hm_music_player_back_end.Password.{hash_password, verify_password}
use hm_music_player_back_end.App.{World}
use hm_music_player_back_end.App.Steady.{HasFront}
use hm_music_player_back_end.Http.{HttpRequest, success, response, set_field, DumpsAscii, is_ascii}
use hm_music_player_back_end.Jwt.{JwtUtil}
use hm_music_player_back_end.VerifyService.{verifies}
use hm_music_player_back_end.UserDao.Table.{UserTable, Account, keep, any}
use hm_music_player_back_end.UserDao.Accounts.{first, is_taken}
use hm_music_player_back_end.UserHandler.Shown.{answer_of}
use hm_music_player_back_end.UserHandler.Codes.{register, handle_register}
use hm_music_player_back_end.UserHandler.Account.{handle_login}
use hm_music_player_back_end.UserHandler.Steady.{register-IsSteady}
use hm_music_player_back_end.UserHandler.Answers.{catch_errors-IsAnswering}
use hm_music_player_back_end.UserHandler.Registration.{IsRegistration, handle_register_accepted}
use hm_music_player_back_end.UserHandler.Login.{IsLogin, handle_login_right, claims_of}

first-keep-append :
    {A : Type 0} (p q : A → Bool) (xs : List A) (a : A)
    → any (λ x. p x || q x) xs ≡ false
    → p a ≡ true
    → first (keep p (xs ++ a ∷ [])) ≡ some a
first-keep-append p q [] a h good = rw good refl
first-keep-append p q (x ∷ xs) a h good = ground (arith, first-keep-append p q xs a)

pub verify_own :
    (e : External) (password : String)
    → verify_password e password (hash_password e password) ≡ true
unfolding verify_password
verify_own e password = eq_refl (hash_password e password)

-- The account that a registration makes.
abbrev pub newcomer : External → ℤ → String → String → String → Account
newcomer e id username password email = record {
  id = id;
  username = username;
  passwd_hash = hash_password e password;
  email = email;
  qq_id = "";
  netease_id = "";
}

module _ {e : External} (dumps : DumpsAscii e) where
  register_front :
      (req : HttpRequest) (w : World e)
      → HasFront w.pool.connections
      → HasFront (handle_register req w).1.pool.connections
  unfolding handle_register
  register_front req w f =
      ((catch_errors-IsAnswering dumps (λ q. Unit {0}) register (λ q p. register-IsSteady q)).steady
          req tt).front
        w f

  -- Over a table of users that keeps MySQL's laws, with a connection at hand: after a registration
  -- with a good code, for a name and an address that are free and, with the hash, fit their
  -- columns, a login with the same name and password is answered by 200 with, as Authorization, a
  -- token that jwt-cpp signed for the id, name and address of the new account, and as body the
  -- JSON of that account: its id, name, address, the time at which it was made, and no platform
  -- ids. Conditions: the times in the table are ASCII, ASCII texts and that JSON can be dumped,
  -- and the library signs for that id, name and address.
  pub register_then_login :
      (t : UserTable e.sql) (util : JwtUtil) (req req' : HttpRequest)
      {username password email code : String}
      (asked : IsRegistration e req.body username password email code)
      (asked' : IsLogin e req'.body username password) (w : World e)
      (f : HasFront w.pool.connections)
      → verifies w.codes (w.clock w.reads) email "register" code ≡ true
      → t.fits 50 username && (t.fits 255 (hash_password e password) && t.fits 50 email) ≡ true
      → is_taken t w f.0 f.1 f.2
          (record no_user { username = username; passwd_hash = password; email = email })
        ≡ false
      → ((c : Claims) (id : ℤ)
          → c.subject ≡ username
          → c.payload ≡ ("id", to_string id) ∷ ("email", email) ∷ []
          → (token : String) × (e.jwt.sign util.secret c ≡ done token))
      → ((id : ℤ) (create_at : String)
          → is_ascii create_at ≡ true
          → (body : String) × (e.json.dump
                (answer_of "Login successful" (newcomer e id username password email) create_at)
              ≡ some body))
      → ((s : t.Stored) → is_ascii (t.create_at s) ≡ true)
      → (s : t.Stored) × (c : Claims) × (token body : String) × (t.rows (handle_register req w).1.db
          ≡ t.rows w.db ++ s ∷ [])
        × (c.subject ≡ username)
        × (c.payload ≡ ("id", to_string (t.account s).id) ∷ ("email", email) ∷ [])
        × (e.jwt.sign util.secret c ≡ done token)
        × (e.json.dump (
              answer_of "Login successful"
                (newcomer e (t.account s).id username password email)
                (t.create_at s))
            ≡ some body)
        × ((handle_login util req' (handle_register req w).1).0
            ≡ ok (set_field "Authorization" token (response success req'.version body)))
  register_then_login t util req req' {username} {password} {email} asked asked' w f good fit free
        signs shows times =
      let (told, s, answered, grown, made, fresh) =
        handle_register_accepted dumps req asked w t f good fit free in
      let w' = (handle_register req w).1 in
      let f' = register_front req w f in
      let name : (t.account s).username ≡ username = ap (λ (a : Account). a.username) made in
      let address : (t.account s).email ≡ email = ap (λ (a : Account). a.email) made in
      let hash : (t.account s).passwd_hash ≡ hash_password e password =
        ap (λ (a : Account). a.passwd_hash) made in
      let claims = claims_of t util req' asked' w' f' (t.account s) in
      let (token, signed) = signs claims (t.account s).id name (rw address refl) in
      let (body, shown) = shows (t.account s).id (t.create_at s) (times s) in
      let qq : (t.account s).qq_id ≡ "" = ap (λ (a : Account). a.qq_id) made in
      let netease : (t.account s).netease_id ≡ "" = ap (λ (a : Account). a.netease_id) made in
      let same : t.same (t.account s).username username ≡ true = rw name (t.same_refl username) in
      let own : first (keep (λ r. t.same (t.account r).username username) (t.rows w'.db)) ≡ some s =
        rw grown (
          first-keep-append (λ r. t.same (t.account r).username username)
            (λ r. t.same (t.account r).email email) (t.rows w.db) s free same) in
      let right : verify_password e password (t.account s).passwd_hash ≡ true =
        rw hash (verify_own e password) in
      (
        s,
        claims,
        token,
        body,
        grown,
        name,
        rw address refl,
        signed,
        shown,
        (handle_login_right t util req' asked' w' f' s token body own right signed
            (rw (name, address, qq, netease) shown)).0,
      )
