-- ===== src/Examples/Sequences.antt =====
-- The theorems on requests and calls that follow one another, at concrete inputs.
use hm_music_player_back_end.Prelude.{
  ℕ, pos, String, ◌≡◌, refl, ◌⊎◌, inr, false, true, some, List, [], ◌∷◌, ◌++◌, ap, ◌∙◌, ◌==◌,
  if◌then◌else◌, ltb, arith, eq_iff, eq_refl,
}
use hm_music_player_back_end.Prelude.Dict.{find, assign, find-assign}
use hm_music_player_back_end.Prelude.Effect.{ok}
use hm_music_player_back_end.External.{Claims, done}
use hm_music_player_back_end.Models.{User, no_user}
use hm_music_player_back_end.Decimal.{to_string, atoi}
use hm_music_player_back_end.Password.{hash_password, verify_password, to_hex_string}
use hm_music_player_back_end.Pool.{take_connection}
use hm_music_player_back_end.Pool.Threads.{Sharing, here, later, gets}
use hm_music_player_back_end.Pool.Threads.Exclusion.{count, holders, fresh, lent_exclusively}
use hm_music_player_back_end.App.{World}
use hm_music_player_back_end.Email.{generate_verification_code, send_text_email}
use hm_music_player_back_end.Http.{respond, get, post, success, response, set_field}
use hm_music_player_back_end.VerifyService.{verifies}
use hm_music_player_back_end.Jwt.Tokens.{IsIssued}
use hm_music_player_back_end.UserDao.Connection.{Call, creates, updates, finds_username, deletes}
use hm_music_player_back_end.UserDao.Refinement.{Conform, calls_refine}
use hm_music_player_back_end.UserHandler.Authorized.{IsAuthorized}
use hm_music_player_back_end.UserHandler.Codes.{
  get_verify_code, handle_get_verify_code, handle_register, handle_change_password,
}
use hm_music_player_back_end.UserHandler.Account.{
  handle_bind_platform, handle_login, handle_get_profile,
}
use hm_music_player_back_end.UserHandler.Avatar.{handle_update_avatar, handle_get_avatar}
use hm_music_player_back_end.UserHandler.Login.{claims_of}
use hm_music_player_back_end.UserHandler.Picture.{FileLaws, IsUpload, avatar_round_trip}
use hm_music_player_back_end.UserHandler.Profile.{login_then_profile}
use hm_music_player_back_end.UserHandler.Binding.{IsBinding, bind_then_profile}
use hm_music_player_back_end.UserHandler.Mailing.{IsCodeRequest, code_then_register}
use hm_music_player_back_end.UserHandler.Registration.{IsRegistration}
use hm_music_player_back_end.UserHandler.{catch_errors, field, is_valid_email}
use hm_music_player_back_end.VerifyService.Calls.{send_verify_code}
use hm_music_player_back_end.UserHandler.PasswordChange.{IsChange, change_then_login}
use hm_music_player_back_end.Examples.Outside.{outside, Entry, account_of, or_empty}
use hm_music_player_back_end.Examples.Table.{table}
use hm_music_player_back_end.Examples.World.{
  ann_world, empty_world, ann, at_front, request, util, outside-DumpsAscii, right-IsLogin,
  wrong-IsLogin,
}

abbrev lent : Sharing
lent = record {
  pool = record { connections = 2 ∷ []; arrivals = []; db_name = "MusicPlayer" };
  held = (7, 1) ∷ [];
}

lent_exclusively_example :
    ((count 1 lent.pool.connections ≡ 1) × (holders 1 lent.held ≡ []))
    ⊎ ((thread : ℕ) × (count 1 lent.pool.connections ≡ 0) × (holders 1 lent.held ≡ thread ∷ []))
unfolding take_connection
lent_exclusively_example =
    lent_exclusively (1 ∷ 2 ∷ []) "MusicPlayer" 1 lent refl
      (later here (gets 7 1 (fresh (1 ∷ 2 ∷ []) "MusicPlayer") _ refl))

abbrev bob : User
bob = record no_user { username = "bob"; passwd_hash = "p"; email = "b@b.c" }

abbrev calls : List Call
calls =
    creates bob
    ∷ creates bob
    ∷ finds_username "bob"
    ∷ updates (record bob { id = pos 1; username = "eve" })
    ∷ deletes (pos 1)
    ∷ []

calls_refine_example : Conform table calls ann_world
calls_refine_example =
    calls_refine table calls ann_world at_front (refl, (refl, (refl, (refl, (refl, tt)))))

-- The world in which ann's token is presented later.
abbrev later_world : World outside
later_world = record ann_world { reads = 5 }

kept :
    (name value : String)
    → find name (("id", "1") ∷ ("email", "a@b.c") ∷ []) ≡ some value
    → (if name == "email" then "a@b.c" else "1") ≡ value
kept name value h =
    ground (arith, eq_iff "id" name, eq_iff "email" name, eq_iff name "email", eq_iff "id" "email")

ann-IsIssued :
    (c : Claims)
    → c.payload ≡ ("id", "1") ∷ ("email", "a@b.c") ∷ []
    → IsIssued outside.jwt "secret" c "1"
unfolding atoi
ann-IsIssued c named = record {
  decoded = "1";
  decodes = refl;
  text = refl;
  nonempty = refl;
  expires_at = pos 1000;
  expires = refl;
  accepted = λ t late early. refl;
  keeps = λ name value h. ap done (kept name value (rw named at h));
}

ann-IsAuthorized :
    (w : World outside) → w.clock ≡ pos → ltb 900 w.reads ≡ false → IsAuthorized util "1" (pos 1) w
unfolding atoi
ann-IsAuthorized w c r = record {
  valid = record {
    decoded = "1";
    decodes = refl;
    verified = refl;
    expires_at = pos 1000;
    expires = refl;
    in_time = rw c (ground arith);
  };
  named = refl;
  claim = "1";
  claims = refl;
  reads_id = refl;
}

login_then_profile_example :
    ((handle_login util (request post "/users/login" "" "login") ann_world).0
      ≡ ok (set_field "Authorization" "1" (response success 11 "{}")))
    × ((handle_get_profile util (request get "/users/info" "1" "") later_world).0
        ≡ ok (response success 11 "{}"))
unfolding verify_password hash_password to_hex_string to_string ann-IsIssued
login_then_profile_example =
    login_then_profile table util (request post "/users/login" "" "login")
      (request get "/users/info" "1" "") right-IsLogin ann_world later_world at_front at_front ann
      "1" "{}" "{}" refl refl refl refl refl (omega arith)
      (ann-IsIssued
        (claims_of table util (request post "/users/login" "" "login") right-IsLogin ann_world
          at_front (account_of ann))
        refl)
      (refl, refl, refl) refl refl

outside-FileLaws : FileLaws outside.file
outside-FileLaws = record {
  written = λ path content d good.
      let found : find path (assign path content (assign path "" d)) ≡ some content =
        find-assign path path content (assign path "" d) ∙ rw (eq_refl path) refl in
      (rw found refl, rw found refl, rw found refl);
}

picture-IsUpload : IsUpload outside "avatar" "pixels" (pos 1) []
picture-IsUpload = record {
  json = ("avatar_data", "pixels") ∷ [];
  parses = refl;
  has_data = refl;
  reads_data = refl;
  small = refl;
  ready = _;
  directory = inr (refl, (true, refl));
  opens = refl;
}

avatar_round_trip_example :
    let w : World outside = ann_world in
    let r = handle_update_avatar util (request post "/users/avatar" "1" "avatar") w in
    (body : String) × ((r.0 ≡ ok (response success 11 body))
      × ((handle_get_avatar util
            (request get "/users/avatar" "1" "")
            (record ann_world { reads = 5; disk = r.1.disk })).0
          ≡ ok (response success 11 "{}")))
avatar_round_trip_example =
    let r = handle_update_avatar util (request post "/users/avatar" "1" "avatar") ann_world in
    avatar_round_trip outside-FileLaws outside-DumpsAscii util
      (request post "/users/avatar" "1" "avatar") (request get "/users/avatar" "1" "") "pixels" "{}"
      (pos 1) ann_world (record ann_world { reads = 5; disk = r.1.disk })
      (ann-IsAuthorized ann_world refl refl) picture-IsUpload refl
      (ann-IsAuthorized (record ann_world { reads = 5; disk = r.1.disk }) refl refl) refl

abbrev coded_world : World outside
coded_world = record ann_world {
  codes =
      ("a@b.c", record { code = "000000"; expire_time = pos 100; action = "reset_password" }) ∷ [];
}

ann-IsChange : IsChange outside "change" "q" "a@b.c" "000000"
ann-IsChange = record {
  json = ("new_password", "q") ∷ ("email", "a@b.c") ∷ ("verify_code", "000000") ∷ [];
  parses = refl;
  has_password = refl;
  has_code = refl;
  has_email = refl;
  reads_password = refl;
  reads_code = refl;
  reads_email = refl;
}

change_then_login_example :
    let r = handle_change_password util (request post "/users/password" "1" "change") coded_world in
    (body body' token create_at : String) × (c : Claims) × (r.0 ≡ ok (response success 11 body))
    × (c.subject ≡ "ann")
    × (c.payload ≡ ("id", to_string (pos 1)) ∷ ("email", "a@b.c") ∷ [])
    × (done (or_empty (find "id" c.payload)) ≡ done token)
    × (some "{}" ≡ some body')
    × ((handle_login util (request post "/users/login" "" "guess") r.1).0
        ≡ ok (set_field "Authorization" token (response success 11 body')))
unfolding verifies
change_then_login_example =
    change_then_login outside-DumpsAscii table util (request post "/users/password" "1" "change")
      ann-IsChange coded_world at_front (ann-IsAuthorized coded_world refl refl)
      (request post "/users/login" "" "guess") wrong-IsLogin ann refl refl refl refl
      (λ c n p. (or_empty (find "id" c.payload), refl)) (λ c a. ("{}", refl)) (λ s. refl)

bind-IsBinding : IsBinding outside "bind" "qq" "7"
bind-IsBinding = record {
  json = ("platform", "qq") ∷ ("platform_id", "7") ∷ [];
  parses = refl;
  has_platform = refl;
  has_id = refl;
  reads_platform = refl;
  reads_id = refl;
}

bind_then_profile_example :
    let r = handle_bind_platform util (request post "/users/bind" "1" "bind") ann_world in
    (body body' create_at : String) × (r.0 ≡ ok (response success 11 body))
    × (some "{}" ≡ some body')
    × ((handle_get_profile util
          (request get "/users/info" "1" "")
          (record ann_world { reads = 5; db = r.1.db })).0
        ≡ ok (response success 11 body'))
bind_then_profile_example =
    let r = handle_bind_platform util (request post "/users/bind" "1" "bind") ann_world in
    bind_then_profile outside-DumpsAscii table util (request post "/users/bind" "1" "bind")
      bind-IsBinding ann_world at_front (ann-IsAuthorized ann_world refl refl)
      (request get "/users/info" "1" "") (record ann_world { reads = 5; db = r.1.db }) at_front refl
      (ann-IsAuthorized (record ann_world { reads = 5; db = r.1.db }) refl refl) ann refl refl refl
      (λ c a. ("{}", refl)) (λ s. refl)

mail-IsCodeRequest : IsCodeRequest outside "code" "a@b.c" "register"
mail-IsCodeRequest = record {
  json = ("email", "a@b.c") ∷ ("action", "register") ∷ [];
  parses = refl;
  has_email = refl;
  has_action = refl;
  reads_email = refl;
  reads_action = refl;
  well_formed = refl;
}

mailed-IsRegistration : IsRegistration outside "mailed" "ann" "p" "a@b.c" "777777"
mailed-IsRegistration = record {
  json =
      ("username", "ann") ∷ ("password", "p") ∷ ("email", "a@b.c") ∷ ("verify_code", "777777") ∷ [];
  parses = refl;
  has_username = refl;
  has_password = refl;
  has_email = refl;
  has_code = refl;
  reads_username = refl;
  reads_password = refl;
  reads_email = refl;
  reads_code = refl;
}

-- The world in which the code has arrived.
abbrev mailed_world : World outside
mailed_world = record empty_world {
  reads = 5;
  codes = (handle_get_verify_code (request post "/users/code" "" "code") empty_world).1.codes;
}

code_then_register_example :
    let r = handle_register (request post "/users/register" "" "mailed") mailed_world in
    (body : String) × (s : Entry) × (r.0 ≡ ok (response success 11 body))
    × (r.1.db.entries ≡ [] ++ s ∷ [])
    × (account_of s ≡ record {
      id = pos s.number;
      username = "ann";
      passwd_hash = hash_password outside "p";
      email = "a@b.c";
      qq_id = "";
      netease_id = "";
    })
    × (false ≡ false)
unfolding handle_get_verify_code catch_errors get_verify_code field is_valid_email send_verify_code
    to_string generate_verification_code send_text_email respond
code_then_register_example =
    code_then_register outside-DumpsAscii (request post "/users/code" "" "code") mail-IsCodeRequest
      empty_world table "{}" refl (request post "/users/register" "" "mailed") mailed-IsRegistration
      mailed_world at_front refl refl refl refl refl
