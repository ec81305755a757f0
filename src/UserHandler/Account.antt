-- ===== src/UserHandler/Account.antt =====
-- src/handlers/UserHandler.cpp: login, profile and the accounts on other platforms.
use hm_music_player_back_end.Prelude.{
  ◌*◌, ℤ, pos, String, not, ◌||◌, Option, none, some, [], ◌∷◌, ◌==◌, if◌then◌else◌,
}
use hm_music_player_back_end.Prelude.Effect.{pure, ◌>>=◌}
use hm_music_player_back_end.External.{External}
use hm_music_player_back_end.Models.{User}
use hm_music_player_back_end.Decimal.{to_string}
use hm_music_player_back_end.Password.{verify_password}
use hm_music_player_back_end.App.{App, json_call}
use hm_music_player_back_end.Http.{
  HttpRequest, HttpResponse, bad_request, unauthorized, not_found, internal_server_error, pair,
  build_error_response, respond, set_field,
}
use hm_music_player_back_end.Jwt.{JwtUtil, generate_token, verify_token, seconds}
use hm_music_player_back_end.UserDao.{
  get_user_by_id, get_user_by_username, update_qq_id, update_netease_id,
}
use hm_music_player_back_end.UserHandler.{
  catch_errors, claimed_id, field, message_and, user_details,
}

module _ {e : External} (jwt_util : JwtUtil) where
  open e.json use {parse, contains}

  -- With the user that was found: the password, the token and the answer.
  unfoldable pub log_in : HttpRequest → String → User → App e HttpResponse
  log_in req password user =
      if not (verify_password e password user.passwd_hash)
      then build_error_response unauthorized req.version "Incorrect password"
      else do
        token ←
            generate_token jwt_util user.username
              (("id", to_string user.id) ∷ ("email", user.email) ∷ [])
              (seconds (pos (24 * 120 * 3600)))
        res ←
            respond req.version
              (message_and "Login successful" (pair "user" (user_details user) ∷ []))
        pure (set_field "Authorization" token res)

  unfoldable pub log_in_found : HttpRequest → String → Option User → App e HttpResponse
  unfolding log_in
  log_in_found req password none = build_error_response not_found req.version "User not found"
  log_in_found req password (some user) = log_in req password user

  unfoldable pub login : HttpRequest → App e HttpResponse
  unfolding log_in_found
  login req = do
    j ← json_call (parse req.body)
    if not (contains "username" j) || not (contains "password" j)
        then build_error_response bad_request req.version "Missing username or password"
        else do
          username ← field "username" j
          password ← field "password" j
          user ← get_user_by_username username
          log_in_found req password user

  unfoldable pub handle_login : HttpRequest → App e HttpResponse
  unfolding login
  handle_login req = catch_errors req (login req)

  unfoldable pub show_profile : HttpRequest → Option User → App e HttpResponse
  show_profile req none = build_error_response not_found req.version "User not found"
  show_profile req (some user) =
      respond req.version
        (message_and "User profile retrieved successfully" (pair "user" (user_details user) ∷ []))

  unfoldable pub get_profile : HttpRequest → App e HttpResponse
  unfolding show_profile
  get_profile req = do
    token ← verify_token jwt_util req.authorization
    if token == ""
        then build_error_response unauthorized req.version "Invalid token"
        else do user_id ← claimed_id token; user ← get_user_by_id user_id; show_profile req user

  unfoldable pub handle_get_profile : HttpRequest → App e HttpResponse
  unfolding get_profile
  handle_get_profile req = catch_errors req (get_profile req)

  unfoldable pub platform_bound : HttpRequest → App e HttpResponse
  platform_bound req = respond req.version (message_and "Platform account bound successfully" [])

  unfoldable pub bind_qq : HttpRequest → ℤ → String → App e HttpResponse
  bind_qq req user_id platform_id = do
    updated ← update_qq_id user_id platform_id
    if not updated
        then build_error_response internal_server_error req.version "Failed to bind QQ account"
        else platform_bound req

  unfoldable pub bind_netease : HttpRequest → ℤ → String → App e HttpResponse
  bind_netease req user_id platform_id = do
    updated ← update_netease_id user_id platform_id
    if not updated
        then build_error_response internal_server_error req.version "Failed to bind NetEase account"
        else platform_bound req

  unfoldable pub bind_account : HttpRequest → ℤ → String → String → App e HttpResponse
  bind_account req user_id platform platform_id =
      if platform == "qq"
      then bind_qq req user_id platform_id
      else if platform == "netease"
      then bind_netease req user_id platform_id
      else build_error_response bad_request req.version "Invalid platform"

  -- With the parsed body.
  unfoldable pub bind_json : HttpRequest → ℤ → e.json.Json → App e HttpResponse
  bind_json req user_id j =
      if not (contains "platform" j) || not (contains "platform_id" j)
      then build_error_response bad_request req.version "Missing platform or platform_id"
      else do
        platform ← field "platform" j
        platform_id ← field "platform_id" j
        bind_account req user_id platform platform_id

  unfoldable pub bind_platform : HttpRequest → App e HttpResponse
  bind_platform req = do
    token ← verify_token jwt_util req.authorization
    if token == ""
        then build_error_response unauthorized req.version "Invalid token"
        else do user_id ← claimed_id token; j ← json_call (parse req.body); bind_json req user_id j

  unfoldable pub handle_bind_platform : HttpRequest → App e HttpResponse
  unfolding bind_platform
  handle_bind_platform req = catch_errors req (bind_platform req)
