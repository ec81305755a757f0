-- ===== src/UserHandler/Answers.antt =====
-- The handlers under /users answer every request.
use hm_music_player_back_end.Prelude.{ℕ, ◌≡◌, refl}
use hm_music_player_back_end.Prelude.Effect.{
  Result, ok, throw, fault, json_exception, sql_exception, std_exception,
}
use hm_music_player_back_end.External.{External}
use hm_music_player_back_end.App.{World, App}
use hm_music_player_back_end.App.Steady.{IsAnswering, ok-IsDefined, IsSteady, IsDefined}
use hm_music_player_back_end.Http.{
  bad_request, internal_server_error, HttpRequest, HttpResponse, DumpsAscii,
}
use hm_music_player_back_end.Http.Steady.{error_ascii}
use hm_music_player_back_end.Jwt.{JwtUtil}
use hm_music_player_back_end.UserHandler.{catch_errors, recover_request}
use hm_music_player_back_end.UserHandler.Codes.{
  get_verify_code, handle_get_verify_code, register, handle_register, change_password,
  handle_change_password,
}
use hm_music_player_back_end.UserHandler.Account.{
  login, handle_login, get_profile, handle_get_profile, bind_platform, handle_bind_platform,
}
use hm_music_player_back_end.UserHandler.Avatar.{
  update_avatar, handle_update_avatar, get_avatar, handle_get_avatar,
}
use hm_music_player_back_end.UserHandler.Steady.{
  IdFits, get_verify_code-IsSteady, register-IsSteady, login-IsSteady, change_password-IsSteady,
  get_profile-IsSteady, bind_platform-IsSteady, update_avatar-IsSteady, get_avatar-IsSteady,
}

module _ {e : External} (dumps : DumpsAscii e) where
  recovered :
      (v : ℕ) (r : Result HttpResponse) (w : World e)
      → IsDefined r
      → ((res : HttpResponse) × ((recover_request v r w).0 ≡ ok res))
        × ((recover_request v r w).1 ≡ w)
  unfolding recover_request
  recovered v (ok res) w h = ((res, refl), refl)
  recovered v (throw json_exception) w h =
      let (res, b) = error_ascii dumps bad_request v "Invalid JSON format" w refl in
      ((res, rw b refl), rw b refl)
  recovered v (throw sql_exception) w h =
      let (res, b) = error_ascii dumps internal_server_error v "Internal server error" w refl in
      ((res, rw b refl), rw b refl)
  recovered v (throw (std_exception s)) w h =
      let (res, b) = error_ascii dumps internal_server_error v "Internal server error" w refl in
      ((res, rw b refl), rw b refl)
  recovered v fault w h = absurd h

  -- The `catch` clauses make a handler of each steady body answer.
  pub catch_errors-IsAnswering :
      (P : HttpRequest → Type 0) (body : HttpRequest → App e HttpResponse)
      → ((req : HttpRequest) → P req → IsSteady (body req))
      → IsAnswering P (λ req. catch_errors req (body req))
  unfolding catch_errors
  catch_errors-IsAnswering P body s = record {
    answers = λ req p w f.
        (recovered req.version (body req w).0 (body req w).1 ((s req p).defined w f)).0;
    steady = λ req p. record {
      defined = λ w f.
          let (res, e) =
            (recovered req.version (body req w).0 (body req w).1 ((s req p).defined w f)).0 in
          ok-IsDefined _ res e;
      front = λ w f.
          let q = (recovered req.version (body req w).0 (body req w).1 ((s req p).defined w f)).1 in
          rw q ((s req p).front w f);
      same = λ w f.
          let q = (recovered req.version (body req w).0 (body req w).1 ((s req p).defined w f)).1 in
          rw q ((s req p).same w f);
    };
  }

-- A request whose token, if it has a good one, has an id in the range of int.
abbrev pub Fits : (e : External) → JwtUtil → HttpRequest → Type 0
Fits e u req = IdFits e u req.authorization

-- Each handler under /users answers such requests, on a pool with a connection at hand.
module _ {e : External} (dumps : DumpsAscii e) (u : JwtUtil) where
  pub handle_get_verify_code-IsAnswering : IsAnswering (Fits e u) (handle_get_verify_code {e = e})
  unfolding handle_get_verify_code
  handle_get_verify_code-IsAnswering =
      catch_errors-IsAnswering dumps (Fits e u) get_verify_code
        (λ req p. get_verify_code-IsSteady req)

  pub handle_register-IsAnswering : IsAnswering (Fits e u) (handle_register {e = e})
  unfolding handle_register
  handle_register-IsAnswering =
      catch_errors-IsAnswering dumps (Fits e u) register (λ req p. register-IsSteady req)

  pub handle_login-IsAnswering : IsAnswering (Fits e u) (handle_login {e = e} u)
  unfolding handle_login
  handle_login-IsAnswering =
      catch_errors-IsAnswering dumps (Fits e u) (login u) (λ req p. login-IsSteady u req)

  pub handle_change_password-IsAnswering : IsAnswering (Fits e u) (handle_change_password {e = e} u)
  unfolding handle_change_password
  handle_change_password-IsAnswering =
      catch_errors-IsAnswering dumps (Fits e u) (change_password u) (change_password-IsSteady u)

  pub handle_get_profile-IsAnswering : IsAnswering (Fits e u) (handle_get_profile {e = e} u)
  unfolding handle_get_profile
  handle_get_profile-IsAnswering =
      catch_errors-IsAnswering dumps (Fits e u) (get_profile u) (get_profile-IsSteady u)

  pub handle_bind_platform-IsAnswering : IsAnswering (Fits e u) (handle_bind_platform {e = e} u)
  unfolding handle_bind_platform
  handle_bind_platform-IsAnswering =
      catch_errors-IsAnswering dumps (Fits e u) (bind_platform u) (bind_platform-IsSteady u)

  pub handle_update_avatar-IsAnswering : IsAnswering (Fits e u) (handle_update_avatar {e = e} u)
  unfolding handle_update_avatar
  handle_update_avatar-IsAnswering =
      catch_errors-IsAnswering dumps (Fits e u) (update_avatar u) (update_avatar-IsSteady u)

  pub handle_get_avatar-IsAnswering : IsAnswering (Fits e u) (handle_get_avatar {e = e} u)
  unfolding handle_get_avatar
  handle_get_avatar-IsAnswering =
      catch_errors-IsAnswering dumps (Fits e u) (get_avatar u) (get_avatar-IsSteady u)
