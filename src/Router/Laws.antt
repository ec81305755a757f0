-- ===== src/Router/Laws.antt =====
-- The router as a partial function of method and target.
use hm_music_player_back_end.Prelude.{
  String, Option, none, some, List, [], ◌∷◌, ◌≡◌, refl, ◌==◌, if◌then◌else◌, Bool, true, false,
  ◌&&◌,
}
use hm_music_player_back_end.Prelude.Dict.{find, find-assign}
use hm_music_player_back_end.External.{External}
use hm_music_player_back_end.Http.{Verb, get, post, other, HttpRequest}
use hm_music_player_back_end.Router.{
  RouterHandler, Router, Route, no_routes, add_router, add_all, handle_router, run_found, routes_of,
}

abbrev pub same_verb : Verb → Verb → Bool
same_verb get get = true
same_verb post post = true
same_verb _ _ = false

module _ {e : External} where
  -- The last route of a list for a method and a target, if the method is GET or POST.
  abbrev pub last_route :
      Verb → String → List (Route e) → Option (RouterHandler e) → Option (RouterHandler e)
  last_route method target [] found = found
  last_route method target (p ∷ ps) found =
      last_route method target ps
        (if same_verb p.method method && (p.url == target) then some p.handler else found)

  routes_of-add_router :
      (p : Route e) (r : Router e) (method : Verb) (target : String)
      → find target (routes_of method (add_router p.method p.url p.handler r)) ≡ (
          if same_verb p.method method && (p.url == target)
          then some p.handler
          else find target (routes_of method r))
  unfolding add_router routes_of
  routes_of-add_router p r method target = go p.method method
    where
      go :
          (m n : Verb)
          → find target (routes_of n (add_router m p.url p.handler r)) ≡ (
              if same_verb m n && (p.url == target)
              then some p.handler
              else find target (routes_of n r))
      go get get = find-assign p.url target p.handler r.router_get
      go post post = find-assign p.url target p.handler r.router_post
      go get post = refl
      go get other = refl
      go post get = refl
      go post other = refl
      go other get = refl
      go other post = refl
      go other other = refl

  routes_of-add_all :
      (ps : List (Route e)) (r : Router e) (method : Verb) (target : String)
      → find target (routes_of method (add_all ps r))
        ≡ last_route method target ps (find target (routes_of method r))
  routes_of-add_all [] r method target = refl
  routes_of-add_all (p ∷ ps) r method target = rw (
    routes_of-add_all ps (add_router p.method p.url p.handler r) method target,
    routes_of-add_router p r method target,
  )

  empty :
      (method : Verb) (target : String) → find target (routes_of {e = e} method no_routes) ≡ none
  unfolding routes_of
  empty get target = refl
  empty post target = refl
  empty other target = refl

  -- A router that was filled by addRouter answers a request by the handler that was added last for
  -- its method and target, and by 404 where there is none.
  pub handle_router-add_all :
      (ps : List (Route e)) (request : HttpRequest)
      → handle_router (add_all ps no_routes) request
        ≡ run_found (last_route request.method request.target ps none) request
  unfolding handle_router
  handle_router-add_all ps request = rw (
    routes_of-add_all ps no_routes request.method request.target,
    empty request.method request.target,
  )
