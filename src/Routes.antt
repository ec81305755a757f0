-- ===== src/Routes.antt =====
-- src/server/main.cpp: the table of routes of `setupRoutes`.
pub mod Laws
pub mod Answers
use hm_music_player_back_end.Prelude.{String, pos, List, [], ◌∷◌}
use hm_music_player_back_end.External.{External, Init, string, number, braces, nil, cons}
use hm_music_player_back_end.Http.{get, post, Verb, HttpRequest, pair, object, respond}
use hm_music_player_back_end.Jwt.{jwt_util}
use hm_music_player_back_end.UserHandler.Codes.{
  handle_get_verify_code, handle_register, handle_change_password,
}
use hm_music_player_back_end.UserHandler.Account.{
  handle_login, handle_get_profile, handle_bind_platform,
}
use hm_music_player_back_end.UserHandler.Avatar.{handle_update_avatar, handle_get_avatar}
use hm_music_player_back_end.Router.{RouterHandler, Router, Route, add_all}

-- `json{{text}}`: no pair, so an array in an array.
abbrev pub bare : String → Init
bare s = object (braces (cons (string s) nil) ∷ [])

abbrev pub note : String → String → Init
note key s = object (pair key (string s) ∷ [])

module _ {e : External} where
  -- A route with a fixed answer.
  unfoldable pub reply : Init → RouterHandler e
  reply content request = respond request.version content

  abbrev route : Verb → String → RouterHandler e → Route e
  route method url handler = record { method = method; url = url; handler = handler }

  -- The calls of `addRouter`, in their order. The handlers share one UserHandler, whose JWTUtil
  -- is made of the secret.
  unfoldable pub routes : String → List (Route e)
  routes secret =
      route get "/" (reply (note "message" "Welcome to HarmonyOS Music Player!"))
      ∷ route post "/users/register" handle_register
      ∷ route post "/users/verify_code" handle_get_verify_code
      ∷ route post "/users/login" (handle_login (jwt_util secret))
      ∷ route get "/users/info" (handle_get_profile (jwt_util secret))
      ∷ route post "/users/avatar" (handle_update_avatar (jwt_util secret))
      ∷ route get "/users/avatar" (handle_get_avatar (jwt_util secret))
      ∷ route post "/users/password" (handle_change_password (jwt_util secret))
      ∷ route post "/users/bind" (handle_bind_platform (jwt_util secret))
      ∷ route post "/playlists" (reply (bare "Playlists retrieved successfully"))
      ∷ route post "/playlists/songs" (reply (bare "All songs in playlist retrieved"))
      ∷ route post "/playlists/add" (reply (note "msg" "Song added to playlist"))
      ∷ route post "/playlists/erase" (reply (note "msg" "Song removed from playlist"))
      ∷ route post "/playlists/create" (reply (bare "Playlist created successfully"))
      ∷ route post "/playlists/delete" (reply (note "msg" "Playlist deleted successfully"))
      ∷ route post "/history" (reply (bare "All songs in history retrieved"))
      ∷ route post "/history/add" (reply (bare "Song added to history"))
      ∷ route post "/history/erase" (reply (note "msg" "Song removed from history"))
      ∷ route post "/history/clear" (reply (bare "History cleared"))
      ∷ route post "/history/like" (reply (bare "Most played songs retrieved"))
      ∷ []

  unfoldable pub setup_routes : String → Router e → Router e
  unfolding routes
  setup_routes secret server = add_all (routes secret) server
