-- ===== src/Routes/Answers.antt =====
-- Every route of `setupRoutes` answers, and so does the router.
use hm_music_player_back_end.Prelude.{
  String, ◌≡◌, refl, true, false, Bool, Option, none, some, List, [], ◌∷◌, All, ◌==◌, ◌&&◌,
  if◌then◌else◌,
}
use hm_music_player_back_end.External.{External, Init}
use hm_music_player_back_end.App.Steady.{IsAnswering}
use hm_music_player_back_end.Http.{
  DumpsAscii, HttpRequest, ascii_init, ascii_inits, not_found, Verb,
}
use hm_music_player_back_end.Http.Steady.{
  respond-IsSteady, respond_ascii, error-IsSteady, error_ascii,
}
use hm_music_player_back_end.Jwt.{jwt_util}
use hm_music_player_back_end.UserHandler.Answers.{
  Fits, handle_get_verify_code-IsAnswering, handle_register-IsAnswering, handle_login-IsAnswering,
  handle_change_password-IsAnswering, handle_get_profile-IsAnswering,
  handle_bind_platform-IsAnswering, handle_update_avatar-IsAnswering, handle_get_avatar-IsAnswering,
}
use hm_music_player_back_end.Router.{Route, RouterHandler, handle_router, no_routes, run_found}
use hm_music_player_back_end.Router.Laws.{last_route, same_verb, handle_router-add_all}
use hm_music_player_back_end.Routes.{reply, routes, setup_routes}

module _ (e : External) (dumps : DumpsAscii e) (secret : String) where
  abbrev P : HttpRequest → Type 0
  P = Fits e (jwt_util secret)

  reply-IsAnswering : (i : Init) → ascii_init i ≡ true → IsAnswering P (reply {e = e} i)
  unfolding reply
  reply-IsAnswering i h = record {
    answers = λ q p w f. let (r, b) = respond_ascii dumps q.version i w h in (r, rw b refl);
    steady = λ q p. respond-IsSteady q.version i;
  }

  routes-IsAnswering : All (λ (p : Route e). IsAnswering P p.handler) (routes secret)
  unfolding routes ascii_init ascii_inits
  routes-IsAnswering = (
    reply-IsAnswering _ refl,
    (
      handle_register-IsAnswering dumps (jwt_util secret),
      (
        handle_get_verify_code-IsAnswering dumps (jwt_util secret),
        (
          handle_login-IsAnswering dumps (jwt_util secret),
          (
            handle_get_profile-IsAnswering dumps (jwt_util secret),
            (
              handle_update_avatar-IsAnswering dumps (jwt_util secret),
              (
                handle_get_avatar-IsAnswering dumps (jwt_util secret),
                (
                  handle_change_password-IsAnswering dumps (jwt_util secret),
                  (
                    handle_bind_platform-IsAnswering dumps (jwt_util secret),
                    (
                      reply-IsAnswering _ refl,
                      (
                        reply-IsAnswering _ refl,
                        (
                          reply-IsAnswering _ refl,
                          (
                            reply-IsAnswering _ refl,
                            (
                              reply-IsAnswering _ refl,
                              (
                                reply-IsAnswering _ refl,
                                (
                                  reply-IsAnswering _ refl,
                                  (
                                    reply-IsAnswering _ refl,
                                    (
                                      reply-IsAnswering _ refl,
                                      (reply-IsAnswering _ refl, (reply-IsAnswering _ refl, tt)),
                                    ),
                                  ),
                                ),
                              ),
                            ),
                          ),
                        ),
                      ),
                    ),
                  ),
                ),
              ),
            ),
          ),
        ),
      ),
    ),
  )

  abbrev FoundAnswers : Option (RouterHandler e) → Type 0
  FoundAnswers none = Unit {0}
  FoundAnswers (some h) = IsAnswering P h

  FoundAnswers-if :
      (b : Bool) (h : RouterHandler e) (found : Option (RouterHandler e))
      → IsAnswering P h
      → FoundAnswers found
      → FoundAnswers (if b then some h else found)
  FoundAnswers-if true h found a f = a
  FoundAnswers-if false h found a f = f

  last_route-FoundAnswers :
      (ps : List (Route e)) (m : Verb) (t : String) (found : Option (RouterHandler e))
      → All (λ (p : Route e). IsAnswering P p.handler) ps
      → FoundAnswers found
      → FoundAnswers (last_route m t ps found)
  last_route-FoundAnswers [] m t found a f = f
  last_route-FoundAnswers (p ∷ ps) m t found a f =
      last_route-FoundAnswers ps m t _ a.1
        (FoundAnswers-if (same_verb p.method m && (p.url == t)) p.handler found a.0 f)

  run_found-IsAnswering :
      (found : Option (RouterHandler e)) → FoundAnswers found → IsAnswering P (run_found found)
  unfolding run_found
  run_found-IsAnswering none f = record {
    answers = λ q p w h.
        let (r, b) = error_ascii dumps not_found q.version "Not found" w refl in (r, rw b refl);
    steady = λ q p. error-IsSteady not_found q.version "Not found";
  }
  run_found-IsAnswering (some h) f = record { answers = f.answers; steady = f.steady }

  pub handle_router-IsAnswering :
      IsAnswering P (handle_router (setup_routes {e = e} secret no_routes))
  unfolding setup_routes
  handle_router-IsAnswering =
      let found = λ (q : HttpRequest).
        run_found-IsAnswering _
          (last_route-FoundAnswers (routes secret) q.method q.target none routes-IsAnswering tt) in
      record {
        answers =
            λ q p w h. rw (handle_router-add_all (routes secret) q) ((found q).answers q p w h);
        steady = λ q p. rw (handle_router-add_all (routes secret) q) ((found q).steady q p);
      }
