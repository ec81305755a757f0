-- ===== src/UserHandler.antt =====
-- src/handlers/UserHandler.{h,cpp}: what the handlers of the routes under /users share.
pub mod Codes
pub mod Account
pub mod Avatar
pub mod Steady
pub mod Answers
pub mod Access
pub mod Authorized
pub mod Picture
pub mod Registration
pub mod Login
pub mod Welcome
pub mod Profile
pub mod PasswordChange
pub mod Binding
pub mod Mailing
pub mod Shown
use hm_music_player_back_end.Prelude.{ℕ, ℤ, pos, String, Bool, Option, none, some, List, [], ◌∷◌}
use hm_music_player_back_end.Prelude.Effect.{
  json_exception, Result, ok, throw, fault, pure, undefined, ◌>>=◌,
}
use hm_music_player_back_end.External.{External, Init, string, number}
use hm_music_player_back_end.Models.{User}
use hm_music_player_back_end.Decimal.{atoi}
use hm_music_player_back_end.App.{App, json_call}
use hm_music_player_back_end.Http.{
  HttpRequest, HttpResponse, bad_request, internal_server_error, pair, object, build_error_response,
}
use hm_music_player_back_end.Jwt.{get_claim, or_runtime_error}

abbrev pub avatar_dir : String
avatar_dir = "./avatars"

abbrev pub email_pattern : String
email_pattern = "(^[a-zA-Z0-9_.+-]+@[a-zA-Z0-9-]+\\.[a-zA-Z0-9-.]+$)"

module _ {e : External} where
  -- The two `catch` clauses that end each handler.
  unfoldable pub recover_request : ℕ → Result HttpResponse → App e HttpResponse
  unfolding build_error_response
  recover_request version (throw json_exception) =
      build_error_response bad_request version "Invalid JSON format"
  recover_request version (throw x) =
      build_error_response internal_server_error version "Internal server error"
  recover_request version (ok res) = pure res
  recover_request version fault = undefined

  unfoldable pub catch_errors : HttpRequest → App e HttpResponse → App e HttpResponse
  unfolding recover_request
  catch_errors req m w = let (r, v) = m w in recover_request req.version r v

  unfoldable pub is_valid_email : String → App e Bool
  is_valid_email email = or_runtime_error "" (e.regex_match email_pattern email)

  -- `atoi(JWTUtil::getClaim(token, "id").c_str())`
  unfoldable pub or_undefined : Option ℤ → App e ℤ
  or_undefined none = undefined
  or_undefined (some n) = pure n

  unfoldable pub claimed_id : String → App e ℤ
  unfolding or_undefined
  claimed_id token = do claim ← get_claim token "id"; or_undefined (atoi claim)

  -- `std::string s = j[key];`
  unfoldable pub field : String → e.json.Json → App e String
  unfolding json_call
  field key j = json_call (e.json.get_string key j)

-- `{{"code", 200}, {"message", message}}`, and the fields that follow.
abbrev pub message_and : String → List Init → Init
message_and message rest =
    object (pair "code" (number (pos 200)) ∷ pair "message" (string message) ∷ rest)

abbrev pub user_details : User → Init
user_details user = object (
    pair "id" (number user.id)
    ∷ pair "username" (string user.username)
    ∷ pair "email" (string user.email)
    ∷ pair "create_at" (string user.create_at)
    ∷ pair "qq_id" (string user.qq_id)
    ∷ pair "netease_id" (string user.netease_id)
    ∷ [])
