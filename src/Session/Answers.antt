-- ===== src/Session/Answers.antt =====
-- The server answers.
use hm_music_player_back_end.Prelude.{String, ◌≡◌, refl}
use mathlib.Core.List.{Perm}
use hm_music_player_back_end.Prelude.Effect.{ok}
use hm_music_player_back_end.External.{External}
use hm_music_player_back_end.App.{World}
use hm_music_player_back_end.App.Steady.{HasFront}
use hm_music_player_back_end.Http.{DumpsAscii, HttpRequest, HttpResponse}
use hm_music_player_back_end.Jwt.{jwt_util}
use hm_music_player_back_end.UserHandler.Steady.{IdFits}
use hm_music_player_back_end.Router.{no_routes}
use hm_music_player_back_end.Routes.{setup_routes}
use hm_music_player_back_end.Routes.Answers.{handle_router-IsAnswering}
use hm_music_player_back_end.Session.{handle_request}

module _ (e : External) (dumps : DumpsAscii e) (secret : String) where
  -- Whatever a request holds, the server with the routes of setupRoutes answers it with a
  -- response, and the pool holds the same connections as before, but for their order. Conditions:
  -- a connection is at hand, ASCII texts can be dumped, and the token of the request, if its
  -- signature is good, carries an id that is an int.
  pub handle_request_answers :
      (request : HttpRequest) (w : World e)
      → IdFits e (jwt_util secret) request.authorization
      → HasFront w.pool.connections
      → let r = handle_request (setup_routes secret no_routes) request w in
        ((res : HttpResponse) × (r.0 ≡ ok res)) × Perm r.1.pool.connections w.pool.connections
  unfolding handle_request
  handle_request_answers request w fit f =
      let a = handle_router-IsAnswering e dumps secret in
      let (res, answered) = a.answers request fit w f in
      ((res, rw answered refl), rw answered ((a.steady request fit).same w f))

  pub handle_request_front :
      (request : HttpRequest) (w : World e)
      → IdFits e (jwt_util secret) request.authorization
      → HasFront w.pool.connections
      → HasFront (handle_request (setup_routes secret no_routes) request w).1.pool.connections
  unfolding handle_request
  handle_request_front request w fit f =
      let a = handle_router-IsAnswering e dumps secret in
      let (res, answered) = a.answers request fit w f in
      rw answered ((a.steady request fit).front w f)
