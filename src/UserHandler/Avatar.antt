-- ===== src/UserHandler/Avatar.antt =====
-- src/handlers/UserHandler.cpp: the picture of a user, a file in the directory of avatars.
use Prim.Native.String.{◌++◌, count}
use hm_music_player_back_end.Prelude.{
  ◌*◌, ℤ, String, Bool, not, Option, [], ◌∷◌, ◌==◌, ltb, if◌then◌else◌,
}
use hm_music_player_back_end.Prelude.Effect.{std_exception, ok, pure, or_raise, ◌>>=◌, ◌>>◌}
use hm_music_player_back_end.External.{External, string}
use hm_music_player_back_end.Decimal.{to_string}
use hm_music_player_back_end.App.{App, json_call}
use hm_music_player_back_end.Http.{
  HttpRequest, HttpResponse, bad_request, unauthorized, not_found, internal_server_error, pair,
  build_error_response, respond,
}
use hm_music_player_back_end.Jwt.{JwtUtil, verify_token}
use hm_music_player_back_end.UserHandler.{avatar_dir, catch_errors, claimed_id, field, message_and}

pub avatar_path : ℤ → String
avatar_path user_id = avatar_dir ++ ("/" ++ to_string user_id)

module _ {e : External} where
  open e.file use {Disk, exists, create_directory, open_out, write, open_in, read}

  -- A call of the file system; the message of a filesystem_error is not looked at.
  unfoldable pub file_call : {A : Type 0} → (Disk → Disk × Option A) → App e A
  file_call f w =
      let (d, r) = f w.disk in or_raise r (std_exception "filesystem error") (record w { disk = d })

  unfoldable pub file_exists : String → App e Bool
  unfolding file_call
  file_exists path = file_call λ d. (d, exists path d)

  -- Whether the stream that is opened for writing is good, and what is put in it.
  unfoldable pub open_for_writing : String → App e Bool
  open_for_writing path w = let (d, good) = open_out path w.disk in (ok good, record w { disk = d })

  unfoldable pub put : String → String → App e (Unit {0})
  put path content w = (ok tt, record w { disk = write path content w.disk })

  unfoldable pub make_directory : App e (Unit {0})
  unfolding file_exists
  make_directory = do
    there ← file_exists avatar_dir
    if there then pure tt else file_call (create_directory avatar_dir) >> pure tt

  module _ (jwt_util : JwtUtil) where
    unfoldable pub update_avatar : HttpRequest → App e HttpResponse
    unfolding make_directory open_for_writing put
    update_avatar req = do
      token ← verify_token jwt_util req.authorization
      if token == "" then build_error_response unauthorized req.version "Invalid token" else do
        j ← json_call (e.json.parse req.body)
        if not (e.json.contains "avatar_data" j)
            then build_error_response bad_request req.version "Missing avatar_data"
            else do
              avatar_data ← field "avatar_data" j
              if ltb (1024 * 1024) (count avatar_data)
                  then build_error_response bad_request req.version
                      "Avatar data requires not more than 1MB"
                  else do
                    user_id ← claimed_id token
                    make_directory
                    good ← open_for_writing (avatar_path user_id)
                    if not good
                        then build_error_response internal_server_error req.version
                            "Failed to save avatar"
                        else do
                          put (avatar_path user_id) avatar_data
                          respond req.version (message_and "Avatar updated successfully" [])

    unfoldable pub handle_update_avatar : HttpRequest → App e HttpResponse
    unfolding update_avatar
    handle_update_avatar req = catch_errors req (update_avatar req)

    -- The file is opened and read to its end.
    unfoldable pub show_avatar : HttpRequest → String → Disk → App e HttpResponse
    show_avatar req path disk =
        if not (open_in path disk)
        then build_error_response internal_server_error req.version "Failed to read avatar"
        else respond req.version (
            message_and "Avatar retrieved successfully"
              (pair "avatar_data" (string (read path disk)) ∷ []))

    unfoldable pub send_avatar : HttpRequest → String → App e HttpResponse
    unfolding show_avatar
    send_avatar req path w = show_avatar req path w.disk w

    unfoldable pub get_avatar : HttpRequest → App e HttpResponse
    unfolding file_exists send_avatar
    get_avatar req = do
      token ← verify_token jwt_util req.authorization
      if token == "" then build_error_response unauthorized req.version "Invalid token" else do
        user_id ← claimed_id token
        there ← file_exists (avatar_path user_id)
        if not there
            then build_error_response not_found req.version "Avatar not found"
            else send_avatar req (avatar_path user_id)

    unfoldable pub handle_get_avatar : HttpRequest → App e HttpResponse
    unfolding get_avatar
    handle_get_avatar req = catch_errors req (get_avatar req)
