-- ===== src/Router.antt =====
-- src/server/Router.{h,cpp}: two maps from targets to handlers.
pub mod Laws
use hm_music_player_back_end.Prelude.{ℕ, String, Option, none, some, List, [], ◌∷◌}
use hm_music_player_back_end.Prelude.Dict.{find, assign}
use hm_music_player_back_end.External.{External}
use hm_music_player_back_end.App.{App}
use hm_music_player_back_end.Http.{
  Verb, get, post, other, HttpRequest, HttpResponse, not_found, build_error_response,
}

module _ (e : External) where
  abbrev pub RouterHandler : Type 0
  RouterHandler = HttpRequest → App e HttpResponse

  pub record Router : Type 0 where
    pub router_get : List (String × RouterHandler)
    pub router_post : List (String × RouterHandler)

-- A call of `addRouter`.
pub record Route (e : External) : Type 0 where
  pub method : Verb
  pub url : String
  pub handler : RouterHandler e

module _ {e : External} where
  abbrev pub no_routes : Router e
  no_routes = record { router_get = []; router_post = [] }

  -- A route under another method is dropped.
  unfoldable pub add_router : Verb → String → RouterHandler e → Router e → Router e
  add_router get url handler r = record r { router_get = assign url handler r.router_get }
  add_router post url handler r = record r { router_post = assign url handler r.router_post }
  add_router other url handler r = r

  -- A row of calls of `addRouter`.
  abbrev pub add_all : List (Route e) → Router e → Router e
  add_all [] r = r
  add_all (p ∷ ps) r = add_all ps (add_router p.method p.url p.handler r)

  -- The handler that was found, or the answer 404.
  unfoldable pub run_found : Option (RouterHandler e) → RouterHandler e
  run_found none request = build_error_response not_found request.version "Not found"
  run_found (some handler) request = handler request

  routes_of : Verb → Router e → List (String × RouterHandler e)
  routes_of get r = r.router_get
  routes_of post r = r.router_post
  routes_of other r = []

  unfoldable pub handle_router : Router e → RouterHandler e
  unfolding run_found routes_of
  handle_router r request = run_found (find request.target (routes_of request.method r)) request
