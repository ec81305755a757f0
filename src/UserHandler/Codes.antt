-- ===== src/UserHandler/Codes.antt =====
-- src/handlers/UserHandler.cpp: the handlers that send and check a verification code.
use hm_music_player_back_end.Prelude.{
  String, not, ◌||◌, Option, none, some, [], ◌∷◌, ◌==◌, if◌then◌else◌,
}
use hm_music_player_back_end.Prelude.Effect.{◌>>=◌}
use hm_music_player_back_end.External.{External, number}
use hm_music_player_back_end.Models.{User, no_user}
use hm_music_player_back_end.App.{App, json_call}
use hm_music_player_back_end.Http.{
  HttpRequest, HttpResponse, bad_request, unauthorized, conflict, internal_server_error, pair,
  build_error_response, respond,
}
use hm_music_player_back_end.Jwt.{JwtUtil, verify_token}
use hm_music_player_back_end.VerifyService.Calls.{send_verify_code, verify_code}
use hm_music_player_back_end.UserDao.{create_user, get_user_by_username, update_password}
use hm_music_player_back_end.UserHandler.{
  catch_errors, is_valid_email, claimed_id, field, message_and,
}

module _ {e : External} where
  open e.json use {parse, contains}

  -- The bodies of the `try` blocks come first, and the handlers after them.
  unfoldable pub get_verify_code : HttpRequest → App e HttpResponse
  get_verify_code req = do
    j ← json_call (parse req.body)
    if not (contains "email" j) || not (contains "action" j)
        then build_error_response bad_request req.version "Missing email or action"
        else do
          email ← field "email" j
          action ← field "action" j
          valid ← is_valid_email email
          if not valid
              then build_error_response bad_request req.version "Invalid email format"
              else if action == "register" || action == "reset_password"
              then (do
                sent ← send_verify_code email action
                if sent
                    then respond req.version (message_and "Verification code sent" [])
                    else build_error_response internal_server_error req.version
                        "Failed to send verification code")
              else build_error_response bad_request req.version "Invalid action"

  unfoldable pub handle_get_verify_code : HttpRequest → App e HttpResponse
  unfolding get_verify_code
  handle_get_verify_code req = catch_errors req (get_verify_code req)

  -- With the result of the search for the user name, and the user to be.
  unfoldable pub create_new : HttpRequest → User → Option User → App e HttpResponse
  create_new req user (some existing) =
      build_error_response conflict req.version "Username already exists"
  create_new req user none = do
    created ← create_user user
    if not created.0
        then build_error_response internal_server_error req.version "Failed to create user"
        else respond req.version
            (message_and "User registered successfully" (pair "user_id" (number created.1.id) ∷ []))

  -- From the check of the user name on.
  unfoldable pub new_user : HttpRequest → String → String → String → App e HttpResponse
  unfolding create_new
  new_user req username password email = do
    existing ← get_user_by_username username
    create_new req (record no_user { username = username; passwd_hash = password; email = email })
        existing

  unfoldable pub register : HttpRequest → App e HttpResponse
  unfolding new_user
  register req = do
    j ← json_call (parse req.body)
    if not (contains "username" j)
          || not (contains "password" j)
          || not (contains "email" j)
          || not (contains "verify_code" j)
        then build_error_response bad_request req.version
            "Missing username or password or email or verify_code"
        else do
          username ← field "username" j
          password ← field "password" j
          email ← field "email" j
          code ← field "verify_code" j
          verified ← verify_code email "register" code
          if not verified
              then build_error_response bad_request req.version "Invalid verification code"
              else new_user req username password email

  unfoldable pub handle_register : HttpRequest → App e HttpResponse
  unfolding register
  handle_register req = catch_errors req (register req)

  module _ (jwt_util : JwtUtil) where
    unfoldable pub change_password : HttpRequest → App e HttpResponse
    change_password req = do
      j ← json_call (parse req.body)
      if not (contains "new_password" j)
            || not (contains "verify_code" j)
            || not (contains "email" j)
          then build_error_response bad_request req.version
              "Missing user_id or new_password or verify_code or email"
          else do
            token ← verify_token jwt_util req.authorization
            if token == ""
                then build_error_response unauthorized req.version "Invalid token"
                else do
                  user_id ← claimed_id token
                  new_password ← field "new_password" j
                  code ← field "verify_code" j
                  email ← field "email" j
                  verified ← verify_code email "reset_password" code
                  if not verified
                      then build_error_response bad_request req.version "Invalid verification code"
                      else do
                        updated ← update_password user_id new_password
                        if not updated
                            then build_error_response internal_server_error req.version
                                "Failed to update password"
                            else respond req.version
                                (message_and "Password changed successfully" [])

    unfoldable pub handle_change_password : HttpRequest → App e HttpResponse
    unfolding change_password
    handle_change_password req = catch_errors req (change_password req)
