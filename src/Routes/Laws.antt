-- ===== src/Routes/Laws.antt =====
-- What the calls of `addRouter` in `setupRoutes` come to.
use hm_music_player_back_end.Prelude.{
  String, ◌≡◌, refl, ap, ◌∙◌, Option, none, some, ◌==◌, if◌then◌else◌,
}
use hm_music_player_back_end.External.{External}
use hm_music_player_back_end.Http.{
  Verb, get, post, other, HttpRequest, not_found, build_error_response,
}
use hm_music_player_back_end.Jwt.{jwt_util}
use hm_music_player_back_end.UserHandler.Codes.{
  handle_get_verify_code, handle_register, handle_change_password,
}
use hm_music_player_back_end.UserHandler.Account.{
  handle_login, handle_get_profile, handle_bind_platform,
}
use hm_music_player_back_end.UserHandler.Avatar.{handle_update_avatar, handle_get_avatar}
use hm_music_player_back_end.Router.{RouterHandler, handle_router, run_found, no_routes}
use hm_music_player_back_end.Router.Laws.{last_route, handle_router-add_all}
use hm_music_player_back_end.Routes.{bare, note, reply, routes, setup_routes}

module _ {e : External} where
  -- The endpoints of the program under each method, as one map from targets to handlers.
  abbrev pub endpoint : String → Verb → String → Option (RouterHandler e)
  endpoint secret get target =
      if "/users/avatar" == target
      then some (handle_get_avatar (jwt_util secret))
      else if "/users/info" == target
      then some (handle_get_profile (jwt_util secret))
      else if "/" == target
      then some (reply (note "message" "Welcome to HarmonyOS Music Player!"))
      else none
  endpoint secret post target =
      if "/history/like" == target
      then some (reply (bare "Most played songs retrieved"))
      else if "/history/clear" == target
      then some (reply (bare "History cleared"))
      else if "/history/erase" == target
      then some (reply (note "msg" "Song removed from history"))
      else if "/history/add" == target
      then some (reply (bare "Song added to history"))
      else if "/history" == target
      then some (reply (bare "All songs in history retrieved"))
      else if "/playlists/delete" == target
      then some (reply (note "msg" "Playlist deleted successfully"))
      else if "/playlists/create" == target
      then some (reply (bare "Playlist created successfully"))
      else if "/playlists/erase" == target
      then some (reply (note "msg" "Song removed from playlist"))
      else if "/playlists/add" == target
      then some (reply (note "msg" "Song added to playlist"))
      else if "/playlists/songs" == target
      then some (reply (bare "All songs in playlist retrieved"))
      else if "/playlists" == target
      then some (reply (bare "Playlists retrieved successfully"))
      else if "/users/bind" == target
      then some (handle_bind_platform (jwt_util secret))
      else if "/users/password" == target
      then some (handle_change_password (jwt_util secret))
      else if "/users/avatar" == target
      then some (handle_update_avatar (jwt_util secret))
      else if "/users/login" == target
      then some (handle_login (jwt_util secret))
      else if "/users/verify_code" == target
      then some handle_get_verify_code
      else if "/users/register" == target
      then some handle_register
      else none
  endpoint secret other target = none

  -- The handler of an endpoint, or the answer 404.
  abbrev pub served : Option (RouterHandler e) → RouterHandler e
  served none request = build_error_response not_found request.version "Not found"
  served (some handler) request = handler request

module _ (e : External) where
  last_route-routes :
      (secret : String) (method : Verb) (target : String)
      → last_route method target (routes {e = e} secret) none ≡ endpoint secret method target
  unfolding routes
  last_route-routes secret get target = refl
  last_route-routes secret post target = refl
  last_route-routes secret other target = refl

  run_found-served :
      (found : Option (RouterHandler e)) (request : HttpRequest)
      → run_found found request ≡ served found request
  unfolding run_found
  run_found-served none request = refl
  run_found-served (some handler) request = refl

  -- A request to the server with the routes of setupRoutes is answered by the handler of its
  -- endpoint: of the three under GET (the greeting, the profile and the picture), or of the
  -- seventeen under POST (six for users, the rest for playlists and the history with their fixed
  -- answers); any other method or target is answered by 404.
  pub setup_routes_lem :
      (secret : String) (request : HttpRequest)
      → handle_router (setup_routes {e = e} secret no_routes) request
        ≡ served (endpoint secret request.method request.target) request
  unfolding setup_routes
  setup_routes_lem secret request =
      handle_router-add_all (routes secret) request
      ∙ ap (λ found. run_found found request)
          (last_route-routes secret request.method request.target)
      ∙ run_found-served (endpoint secret request.method request.target) request
