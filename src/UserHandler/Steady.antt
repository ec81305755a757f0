-- ===== src/UserHandler/Steady.antt =====
-- The handlers under /users do nothing undefined and lose no connection.
use hm_music_player_back_end.Prelude.{
  ℕ, ℤ, String, ◌≡◌, refl, inl, inr, true, Option, none, some, ◌==◌, if◌then◌else◌,
}
use hm_music_player_back_end.Prelude.Effect.{ok, ◌>>=◌, std_exception}
use hm_music_player_back_end.External.{External, Try, done, failed}
use hm_music_player_back_end.Models.{User}
use hm_music_player_back_end.Decimal.{atoi}
use hm_music_player_back_end.App.Steady.{
  IsSteady, steady_rules, IsSteady-reads, IsSteady-quiet, IsSteady-IsGuarded, IsSteady-pure,
  IsSteady-or_raise, IsSteady-if, IsSteady-bind, IsSteady-json_call,
}
use hm_music_player_back_end.Http.{HttpRequest}
use hm_music_player_back_end.Http.Steady.{error-IsSteady, respond-IsSteady}
use hm_music_player_back_end.App.{World, App}
use hm_music_player_back_end.Jwt.{JwtUtil, and_then, verify_token, get_claim, or_runtime_error}
use hm_music_player_back_end.Jwt.Tokens.{verify_token_lem}
use hm_music_player_back_end.Jwt.Steady.{
  or_runtime_error-IsSteady, generate_token-IsSteady, verify_token-IsSteady,
}
use hm_music_player_back_end.VerifyService.Calls.Steady.{
  send_verify_code-IsSteady, verify_code-IsSteady,
}
use hm_music_player_back_end.UserDao.{
  create_user, get_user_by_id, get_user_by_username, update_password, update_qq_id,
  update_netease_id,
}
use hm_music_player_back_end.UserDao.Connection.{
  call-IsGuarded, creates, finds_id, finds_username, sets_password, sets_qq_id, sets_netease_id,
  call,
}
use hm_music_player_back_end.UserHandler.{is_valid_email, or_undefined, claimed_id, field}
use hm_music_player_back_end.UserHandler.Codes.{
  get_verify_code, create_new, new_user, register, change_password,
}
use hm_music_player_back_end.UserHandler.Account.{
  log_in, log_in_found, show_profile, platform_bound, bind_qq, bind_netease, bind_account,
  bind_json, login, get_profile, bind_platform,
}
use hm_music_player_back_end.UserHandler.Avatar.{
  file_call, file_exists, open_for_writing, put, make_directory, update_avatar, show_avatar,
  send_avatar, get_avatar,
}

module _ {e : External} where
  create_user-IsSteady : (user : User) → IsSteady (create_user {e = e} user)
  unfolding call
  create_user-IsSteady user = IsSteady-IsGuarded _ (call-IsGuarded (creates user))

  get_user_by_id-IsSteady : (id : ℤ) → IsSteady (get_user_by_id {e = e} id)
  unfolding call
  get_user_by_id-IsSteady id = IsSteady-IsGuarded _ (call-IsGuarded (finds_id id))

  get_user_by_username-IsSteady : (name : String) → IsSteady (get_user_by_username {e = e} name)
  unfolding call
  get_user_by_username-IsSteady name = IsSteady-IsGuarded _ (call-IsGuarded (finds_username name))

  update_password-IsSteady : (id : ℤ) (s : String) → IsSteady (update_password {e = e} id s)
  unfolding call
  update_password-IsSteady id s = IsSteady-IsGuarded _ (call-IsGuarded (sets_password id s))

  update_qq_id-IsSteady : (id : ℤ) (s : String) → IsSteady (update_qq_id {e = e} id s)
  unfolding call
  update_qq_id-IsSteady id s = IsSteady-IsGuarded _ (call-IsGuarded (sets_qq_id id s))

  update_netease_id-IsSteady : (id : ℤ) (s : String) → IsSteady (update_netease_id {e = e} id s)
  unfolding call
  update_netease_id-IsSteady id s = IsSteady-IsGuarded _ (call-IsGuarded (sets_netease_id id s))

  field-IsSteady : (key : String) (j : e.json.Json) → IsSteady (field {e = e} key j)
  unfolding field
  field-IsSteady key j = search steady_rules

  is_valid_email-IsSteady : (email : String) → IsSteady (is_valid_email {e = e} email)
  unfolding is_valid_email
  is_valid_email-IsSteady email = or_runtime_error-IsSteady _ _

ruleset parts = (
  steady_rules, error-IsSteady, respond-IsSteady, field-IsSteady, is_valid_email-IsSteady,
  generate_token-IsSteady, verify_token-IsSteady, send_verify_code-IsSteady, verify_code-IsSteady,
  create_user-IsSteady, get_user_by_id-IsSteady, get_user_by_username-IsSteady,
  update_password-IsSteady, update_qq_id-IsSteady, update_netease_id-IsSteady,
)

module _ {e : External} where
  pub get_verify_code-IsSteady : (req : HttpRequest) → IsSteady (get_verify_code {e = e} req)
  unfolding get_verify_code
  get_verify_code-IsSteady req = search parts depth 20

  create_new-IsSteady :
      (req : HttpRequest) (user : User) (found : Option User)
      → IsSteady (create_new {e = e} req user found)
  unfolding create_new
  create_new-IsSteady req user none = search parts depth 9
  create_new-IsSteady req user (some other) = search parts

  new_user-IsSteady : (req : HttpRequest) (u p m : String) → IsSteady (new_user {e = e} req u p m)
  unfolding new_user
  new_user-IsSteady req u p m = search (parts, create_new-IsSteady)

  pub register-IsSteady : (req : HttpRequest) → IsSteady (register {e = e} req)
  unfolding register
  register-IsSteady req = search (parts, new_user-IsSteady) depth 20

  log_in-IsSteady :
      (u : JwtUtil) (req : HttpRequest) (password : String) (user : User)
      → IsSteady (log_in {e = e} u req password user)
  unfolding log_in
  log_in-IsSteady u req password user = search parts depth 20

  log_in_found-IsSteady :
      (u : JwtUtil) (req : HttpRequest) (password : String) (found : Option User)
      → IsSteady (log_in_found {e = e} u req password found)
  unfolding log_in_found
  log_in_found-IsSteady u req password none = search parts
  log_in_found-IsSteady u req password (some user) = log_in-IsSteady u req password user

  pub login-IsSteady : (u : JwtUtil) (req : HttpRequest) → IsSteady (login {e = e} u req)
  unfolding login
  login-IsSteady u req = search (parts, log_in_found-IsSteady) depth 20

  file_call-IsSteady :
      {A : Type 0} (f : e.file.Disk → e.file.Disk × Option A) → IsSteady (file_call {e = e} f)
  unfolding file_call
  file_call-IsSteady f = record {
    defined = λ w.
        (IsSteady-or_raise (f w.disk).1 (std_exception "filesystem error")).defined
          (record w { disk = (f w.disk).0 });
    front = λ w.
        (IsSteady-or_raise (f w.disk).1 (std_exception "filesystem error")).front
          (record w { disk = (f w.disk).0 });
    same = λ w.
        (IsSteady-or_raise (f w.disk).1 (std_exception "filesystem error")).same
          (record w { disk = (f w.disk).0 });
  }

  file_exists-IsSteady : (path : String) → IsSteady (file_exists {e = e} path)
  unfolding file_exists
  file_exists-IsSteady path = file_call-IsSteady _

  make_directory-IsSteady : IsSteady (make_directory {e = e})
  unfolding make_directory
  make_directory-IsSteady = search (parts, file_call-IsSteady) depth 9

  open_for_writing-IsSteady : (path : String) → IsSteady (open_for_writing {e = e} path)
  unfolding open_for_writing
  open_for_writing-IsSteady path = IsSteady-quiet _ (λ w. tt) (λ w. refl)

  put-IsSteady : (path content : String) → IsSteady (put {e = e} path content)
  unfolding put
  put-IsSteady path content = IsSteady-quiet _ (λ w. tt) (λ w. refl)

  show_avatar-IsSteady :
      (u : JwtUtil) (req : HttpRequest) (path : String) (d : e.file.Disk)
      → IsSteady (show_avatar {e = e} u req path d)
  unfolding show_avatar
  show_avatar-IsSteady u req path d = search parts

  send_avatar-IsSteady :
      (u : JwtUtil) (req : HttpRequest) (path : String) → IsSteady (send_avatar {e = e} u req path)
  unfolding send_avatar
  send_avatar-IsSteady u req path =
      IsSteady-reads (λ w. w.disk) (show_avatar u req path) (show_avatar-IsSteady u req path)

-- If a text is a token with a good signature, its "id" is a number in the range of int.
abbrev pub IdFits : External → JwtUtil → String → Type 0
IdFits e util authorization =
    (d : e.jwt.Decoded) (t : ℤ) (claim : String)
    → e.jwt.decode authorization ≡ done d
    → e.jwt.verify util.secret util.issuer 60 t d ≡ true
    → and_then (e.jwt.decode (e.jwt.get_token d)) (e.jwt.get_payload_claim "id") ≡ done claim
    → (i : ℤ) × (atoi claim ≡ some i)

module _ {e : External} where
  known : (o : Option ℤ) (i : ℤ) → o ≡ some i → IsSteady (or_undefined {e = e} o)
  unfolding or_undefined
  known o i h = rw h (IsSteady-pure i)

  show_profile-IsSteady :
      (u : JwtUtil) (req : HttpRequest) (found : Option User)
      → IsSteady (show_profile {e = e} u req found)
  unfolding show_profile
  show_profile-IsSteady u req none = search parts
  show_profile-IsSteady u req (some user) = search parts

  claimed_id-IsSteady :
      (token : String)
      → ((claim : String)
          → and_then (e.jwt.decode token) (e.jwt.get_payload_claim "id") ≡ done claim
          → (i : ℤ) × (atoi claim ≡ some i))
      → IsSteady (claimed_id {e = e} token)
  unfolding claimed_id get_claim
  claimed_id-IsSteady token fit =
      go (and_then (e.jwt.decode token) (e.jwt.get_payload_claim "id")) refl
    where
      go :
          (r : Try String)
          → and_then (e.jwt.decode token) (e.jwt.get_payload_claim "id") ≡ r
          → IsSteady {e = e}
              (or_runtime_error "getting claim: " r >>= λ claim. or_undefined (atoi claim))
      go (done claim) h = let (i, read) = fit claim h in known (atoi claim) i read
      go (failed what) h = search steady_rules

  -- What comes after the test of the token in the handlers, on the token that was accepted.
  authorized-IsSteady :
      {A : Type 0} (u : JwtUtil) (authorization : String) (refuse : App e A)
      (body : String → App e A)
      → IdFits e u authorization
      → IsSteady refuse
      → ((token : String) → IsSteady (claimed_id {e = e} token) → IsSteady (body token))
      → IsSteady
          (verify_token u authorization >>= λ token. if token == "" then refuse else body token)
  authorized-IsSteady u authorization refuse body fit r b = record {
    defined = λ w f. let (a, n, run, s) = after w in rw run (s.defined (record w { reads = n }) f);
    front = λ w f. let (a, n, run, s) = after w in rw run (s.front (record w { reads = n }) f);
    same = λ w f. let (a, n, run, s) = after w in rw run (s.same (record w { reads = n }) f);
  }
    where
      after :
          (w : World e)
          → (a : String) × (n : ℕ) × (verify_token u authorization w
              ≡ (ok a, record w { reads = n }))
            × IsSteady (if a == "" then refuse else body a)
      after w =
          let (n, outcome) = verify_token_lem u authorization w in
          elim outcome [
            | inl run ↦ ("", n, run, r)
            | inr (h, run) ↦
                let token = e.jwt.get_token h.decoded in
                (
                  token,
                  n,
                  run,
                  IsSteady-if (token == "") refuse (body token) r (
                      b token (
                        claimed_id-IsSteady token
                          λ claim c. fit h.decoded (w.clock w.reads) claim h.decodes h.verified c)),
                )
          ]

  pub change_password-IsSteady :
      (u : JwtUtil) (req : HttpRequest)
      → IdFits e u req.authorization
      → IsSteady (change_password {e = e} u req)
  unfolding change_password
  change_password-IsSteady u req fit = search (parts, authorized-IsSteady _ _ _ _ fit) depth 30

  platform_bound-IsSteady :
      (u : JwtUtil) (req : HttpRequest) → IsSteady (platform_bound {e = e} u req)
  unfolding platform_bound
  platform_bound-IsSteady u req = search parts

  bind_qq-IsSteady :
      (u : JwtUtil) (req : HttpRequest) (i : ℤ) (s : String) → IsSteady (bind_qq {e = e} u req i s)
  unfolding bind_qq
  bind_qq-IsSteady u req i s = search (parts, platform_bound-IsSteady)

  bind_netease-IsSteady :
      (u : JwtUtil) (req : HttpRequest) (i : ℤ) (s : String)
      → IsSteady (bind_netease {e = e} u req i s)
  unfolding bind_netease
  bind_netease-IsSteady u req i s = search (parts, platform_bound-IsSteady)

  pub get_profile-IsSteady :
      (u : JwtUtil) (req : HttpRequest)
      → IdFits e u req.authorization
      → IsSteady (get_profile {e = e} u req)
  unfolding get_profile
  get_profile-IsSteady u req fit =
      authorized-IsSteady u req.authorization _ _ fit (error-IsSteady _ _ _) λ token claimed.
        IsSteady-bind _ _ claimed λ user_id. search (parts, show_profile-IsSteady) depth 30

  bind_account-IsSteady :
      (u : JwtUtil) (req : HttpRequest) (i : ℤ) (platform id : String)
      → IsSteady (bind_account {e = e} u req i platform id)
  unfolding bind_account
  bind_account-IsSteady u req i platform id =
      IsSteady-if (platform == "qq") _ _ (bind_qq-IsSteady u req i id) (
        IsSteady-if (platform == "netease") _ _ (bind_netease-IsSteady u req i id)
          (error-IsSteady _ _ _))

  bind_json-IsSteady :
      (u : JwtUtil) (req : HttpRequest) (i : ℤ) (j : e.json.Json)
      → IsSteady (bind_json {e = e} u req i j)
  unfolding bind_json
  bind_json-IsSteady u req i j = search (parts, bind_account-IsSteady) depth 20

  pub bind_platform-IsSteady :
      (u : JwtUtil) (req : HttpRequest)
      → IdFits e u req.authorization
      → IsSteady (bind_platform {e = e} u req)
  unfolding bind_platform
  bind_platform-IsSteady u req fit =
      authorized-IsSteady u req.authorization _ _ fit (error-IsSteady _ _ _) λ token claimed.
        IsSteady-bind _ _ claimed λ user_id. search (parts, bind_json-IsSteady) depth 30

  pub update_avatar-IsSteady :
      (u : JwtUtil) (req : HttpRequest)
      → IdFits e u req.authorization
      → IsSteady (update_avatar {e = e} u req)
  unfolding update_avatar
  update_avatar-IsSteady u req fit =
      authorized-IsSteady u req.authorization _ _ fit (error-IsSteady _ _ _) λ token claimed.
        IsSteady-bind _ _ (IsSteady-json_call _) λ j. IsSteady-if _ _ _ (error-IsSteady _ _ _) (
          IsSteady-bind _ _ (field-IsSteady _ _) λ avatar_data.
            IsSteady-if _ _ _ (error-IsSteady _ _ _) (
              IsSteady-bind _ _ claimed λ user_id.
                search (parts, make_directory-IsSteady, open_for_writing-IsSteady, put-IsSteady)
                  depth 30))

  pub get_avatar-IsSteady :
      (u : JwtUtil) (req : HttpRequest)
      → IdFits e u req.authorization
      → IsSteady (get_avatar {e = e} u req)
  unfolding get_avatar
  get_avatar-IsSteady u req fit =
      authorized-IsSteady u req.authorization _ _ fit (error-IsSteady _ _ _) λ token claimed.
        IsSteady-bind _ _ claimed
          λ user_id. search (parts, file_exists-IsSteady, send_avatar-IsSteady) depth 30
