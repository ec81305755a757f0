-- ===== src/Examples/Runs.antt =====
-- The theorems on handlers and sessions at concrete inputs.
use mathlib.Core.List.{Perm, Memᴰ}
use hm_music_player_back_end.Prelude.{
  List, ℕ, pos, String, ◌≡◌, refl, false, true, some, [], ◌∷◌, ◌++◌, length,
}
use hm_music_player_back_end.Prelude.Effect.{ok}
use hm_music_player_back_end.External.{Claims, done}
use hm_music_player_back_end.Prelude.Dict.{find}
use hm_music_player_back_end.UserHandler.Welcome.{register_then_login}
use hm_music_player_back_end.Password.{hash_password, verify_password, to_hex_string}
use hm_music_player_back_end.Decimal.{to_string, atoi}
use hm_music_player_back_end.App.{World}
use hm_music_player_back_end.Http.{
  HttpResponse, get, post, success, bad_request, unauthorized, response, set_field,
}
use hm_music_player_back_end.Jwt.Tokens.{IsValid}
use hm_music_player_back_end.VerifyService.{verifies}
use hm_music_player_back_end.UserHandler.Codes.{handle_register}
use hm_music_player_back_end.UserHandler.Account.{handle_login, handle_get_profile}
use hm_music_player_back_end.UserHandler.Access.{asking_refuses}
use hm_music_player_back_end.UserHandler.Registration.{
  handle_register_accepted, handle_register_refused,
}
use hm_music_player_back_end.UserHandler.Login.{handle_login_right, handle_login_refused}
use hm_music_player_back_end.Router.{no_routes}
use hm_music_player_back_end.Routes.{setup_routes}
use hm_music_player_back_end.Session.{Turn, unread, received, run, handle_request}
use hm_music_player_back_end.Session.Conversation.{run_answers}
use hm_music_player_back_end.Session.Answers.{handle_request_answers}
use hm_music_player_back_end.Examples.Outside.{or_empty, outside, Entry, account_of}
use hm_music_player_back_end.Examples.Table.{table}
use hm_music_player_back_end.Examples.World.{
  empty_world, ann_world, ann, at_front, request, util, outside-DumpsAscii, outside-IdFits,
  registration, right-IsLogin, wrong-IsLogin,
}

abbrev conversation : List Turn
conversation =
    received (record (request get "/" "" "") { need_eof = false }) true
    ∷ received (request post "/users/login" "" "login") true
    ∷ unread
    ∷ []

handle_request_answers_example :
    let r =
      handle_request
        (setup_routes "secret" no_routes)
        (request post "/users/login" "" "login")
        ann_world in
    ((res : HttpResponse) × (r.0 ≡ ok res)) × Perm r.1.pool.connections (1 ∷ 2 ∷ [])
handle_request_answers_example =
    handle_request_answers outside outside-DumpsAscii "secret"
      (request post "/users/login" "" "login") ann_world (outside-IdFits util "") at_front

handle_register_accepted_example :
    let r = handle_register (request post "/users/register" "" "register") empty_world in
    (body : String) × (s : Entry) × (r.0 ≡ ok (response success 11 body))
    × (r.1.db.entries ≡ [] ++ s ∷ [])
    × (account_of s ≡ record {
      id = pos s.number;
      username = "ann";
      passwd_hash = hash_password outside "p";
      email = "a@b.c";
      qq_id = "";
      netease_id = "";
    })
    × (false ≡ false)
unfolding verifies
handle_register_accepted_example =
    handle_register_accepted outside-DumpsAscii (request post "/users/register" "" "register")
      registration empty_world table at_front refl refl refl

handle_login_right_example :
    let r = handle_login util (request post "/users/login" "" "login") ann_world in
    (r.0 ≡ ok (set_field "Authorization" "1" (response success 11 "{}")))
    × (r.1.db.entries ≡ ann ∷ [])
unfolding verify_password hash_password to_hex_string to_string
handle_login_right_example =
    handle_login_right table util (request post "/users/login" "" "login") right-IsLogin ann_world
      at_front ann "1" "{}" refl refl refl refl

handle_login_refused_example :
    let r = handle_login util (request post "/users/login" "" "guess") ann_world in
    (body : String) × ((r.0 ≡ ok (response unauthorized 11 body)) × (r.1.db.entries ≡ ann ∷ []))
unfolding verify_password hash_password to_hex_string
handle_login_refused_example =
    handle_login_refused table util (request post "/users/login" "" "guess") wrong-IsLogin ann_world
      at_front outside-DumpsAscii unauthorized refl

handle_register_refused_example :
    let w : World outside = record empty_world { codes = [] } in
    (body : String) × (n : ℕ) × (handle_register (request post "/users/register" "" "register") w
      ≡ (ok (response bad_request 11 body), record w { reads = n }))
unfolding verifies
handle_register_refused_example =
    handle_register_refused outside-DumpsAscii (request post "/users/register" "" "register")
      registration (record empty_world { codes = [] }) refl

no_token : ¬ IsValid util "9999999999" ann_world
no_token v = unfold atoi in (let d = v.decodes in cc)

asking_refuses_example :
    (body : String) × (n : ℕ) × (handle_get_profile util
        (request get "/users/info" "9999999999" "")
        ann_world
      ≡ (ok (response unauthorized 11 body), record ann_world { reads = n }))
asking_refuses_example =
    asking_refuses outside-DumpsAscii util (handle_get_profile util) (Memᴰ.head refl)
      (request get "/users/info" "9999999999" "") ann_world no_token

register_then_login_example :
    let w = (handle_register (request post "/users/register" "" "register") empty_world).1 in
    (s : Entry) × (c : Claims) × (token body : String) × (w.db.entries ≡ s ∷ [])
    × (c.subject ≡ "ann")
    × (c.payload ≡ ("id", to_string (pos s.number)) ∷ ("email", "a@b.c") ∷ [])
    × (done (or_empty (find "id" c.payload)) ≡ done token)
    × (some "{}" ≡ some body)
    × ((handle_login util (request post "/users/login" "" "login") w).0
        ≡ ok (set_field "Authorization" token (response success 11 body)))
unfolding verifies
register_then_login_example =
    register_then_login outside-DumpsAscii table util (request post "/users/register" "" "register")
      (request post "/users/login" "" "login") registration right-IsLogin empty_world at_front refl
      refl refl (λ c i n p. (or_empty (find "id" c.payload), refl)) (λ i c a. ("{}", refl))
      (λ s. refl)

run_answers_example :
    let r = run (setup_routes "secret" no_routes) conversation ann_world in
    (responses : List HttpResponse) × (r.0 ≡ ok responses)
    × (length responses ≡ 2)
    × Perm r.1.pool.connections (1 ∷ 2 ∷ [])
run_answers_example =
    run_answers outside outside-DumpsAscii "secret" conversation ann_world
      (outside-IdFits util "", (outside-IdFits util "", (tt, tt))) at_front
