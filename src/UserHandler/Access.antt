-- ===== src/UserHandler/Access.antt =====
-- The handlers that ask for a token first.
use mathlib.Core.List.{Memᴰ}
use hm_music_player_back_end.Prelude.{All-Memᴰ, ℕ, String, ◌≡◌, refl, inl, inr, List, [], ◌∷◌, All}
use hm_music_player_back_end.Prelude.Effect.{ok}
use hm_music_player_back_end.External.{External}
use hm_music_player_back_end.App.{World, App}
use hm_music_player_back_end.Http.{
  HttpRequest, HttpResponse, unauthorized, response, build_error_response, DumpsAscii,
}
use hm_music_player_back_end.Http.Steady.{error_ascii_response}
use hm_music_player_back_end.Jwt.{JwtUtil, verify_token}
use hm_music_player_back_end.Jwt.Tokens.{verify_token_lem, IsValid}
use hm_music_player_back_end.UserHandler.{catch_errors}
use hm_music_player_back_end.UserHandler.Account.{
  get_profile, handle_get_profile, bind_platform, handle_bind_platform,
}
use hm_music_player_back_end.UserHandler.Avatar.{
  update_avatar, handle_update_avatar, get_avatar, handle_get_avatar,
}

module _ {e : External} where
  -- A request whose token is not valid is answered by 401, and nothing changes but the count of
  -- the reads of the clock.
  abbrev Refuses : JwtUtil → (HttpRequest → App e HttpResponse) → Type 0
  Refuses util handler =
      (req : HttpRequest) (w : World e)
      → ¬ IsValid util req.authorization w
      → (body : String) × (n : ℕ) × (handler req w
          ≡ (ok (response unauthorized req.version body), record w { reads = n }))

  abbrev pub asking : JwtUtil → List (HttpRequest → App e HttpResponse)
  asking util =
      handle_get_profile util
      ∷ handle_bind_platform util
      ∷ handle_update_avatar util
      ∷ handle_get_avatar util
      ∷ []

  -- A body that goes on with `rest` once the token was accepted.
  module _ (dumps : DumpsAscii e) (util : JwtUtil) (body : HttpRequest → App e HttpResponse) where
    refuses :
        ((req : HttpRequest) (v w : World e)
          → verify_token util req.authorization w ≡ (ok "", v)
          → body req w ≡ build_error_response unauthorized req.version "Invalid token" v)
        → Refuses util (λ req. catch_errors req (body req))
    unfolding catch_errors
    refuses h req w bad =
        let (n, outcome) = verify_token_lem util req.authorization w in
        elim outcome [
          | inl r ↦
              let v : World e = record w { reads = n } in
              let (s, b) =
                error_ascii_response dumps unauthorized req.version "Invalid token" v refl in
              (s, n, rw (h req v w r, b) refl)
          | inr (good, r) ↦ absurd (bad good)
        ]

  asking-Refuses : (dumps : DumpsAscii e) (util : JwtUtil) → All (Refuses util) (asking util)
  unfolding handle_get_profile handle_bind_platform handle_update_avatar handle_get_avatar
  asking-Refuses dumps util = (
    refuses dumps util (get_profile util) (λ req v w r. unfold get_profile in rw r refl),
    (
      refuses dumps util (bind_platform util) (λ req v w r. unfold bind_platform in rw r refl),
      (
        refuses dumps util (update_avatar util) (λ req v w r. unfold update_avatar in rw r refl),
        (refuses dumps util (get_avatar util) (λ req v w r. unfold get_avatar in rw r refl), tt),
      ),
    ),
  )

  -- Where ASCII texts can be dumped: a request for the profile, for a platform account, or for
  -- setting or getting the picture, whose token is not valid, is answered by 401, and nothing
  -- changes but the count of the reads of the clock.
  pub asking_refuses :
      (dumps : DumpsAscii e) (util : JwtUtil) (handler : HttpRequest → App e HttpResponse)
      → Memᴰ handler (asking util)
      → (req : HttpRequest) (w : World e) → ¬ IsValid util req.authorization w
      → (body : String) × (n : ℕ) × (handler req w
          ≡ (ok (response unauthorized req.version body), record w { reads = n }))
  asking_refuses dumps util handler m =
      All-Memᴰ (Refuses util) (asking util) (asking-Refuses dumps util) handler m
