-- ===== src/Jwt.antt =====
-- src/utils/JWTUtil.{h,cpp}.
pub mod Steady
pub mod Tokens
use Prim.Native.String.{◌++◌}
use hm_music_player_back_end.Prelude.{
  ℕ, ℤ, pos, ◌+ℤ◌, ◌*ℤ◌, lt_int, String, Bool, not, List, if◌then◌else◌,
}
use hm_music_player_back_end.Prelude.Effect.{
  std_exception, Result, ok, throw, fault, Action, pure, raise, ◌>>=◌,
}
use hm_music_player_back_end.External.{External, Try, done, failed}
use hm_music_player_back_end.App.{World, App, now}

pub record JwtUtil : Type 0 where
  pub secret : String
  pub issuer : String

-- The constructor, with the initialiser of `m_issuer`.
abbrev pub jwt_util : String → JwtUtil
jwt_util secret = record { secret = secret; issuer = "auth0" }

unfoldable pub set_issuer : String → JwtUtil → JwtUtil
set_issuer issuer util = record util { issuer = issuer }

unfoldable pub get_issuer : JwtUtil → String
get_issuer util = util.issuer

-- A time span in nanoseconds.
abbrev pub seconds : ℤ → ℤ
seconds s = 1000000000 *ℤ s

-- `throw std::runtime_error(prefix + e.what())`
abbrev pub or_runtime_error : {S A : Type 0} → String → Try A → Action S A
or_runtime_error prefix (done a) = pure a
or_runtime_error prefix (failed what) = raise (std_exception (prefix ++ what))

-- What `catch (const std::exception& e) { return {}; }` makes of a result.
empty_on_exception : Result String → Result String
empty_on_exception (throw x) = ok ""
empty_on_exception r = r

-- Two calls of jwt-cpp in a row.
abbrev pub and_then : {A B : Type 0} → Try A → (A → Try B) → Try B
and_then (done a) f = f a
and_then (failed what) f = failed what

module _ {e : External} where
  open e use {jwt}

  -- An exception of jwt-cpp, with its message.
  jwt_call : {A : Type 0} → Try A → App e A
  jwt_call r = or_runtime_error "" r

  unfoldable pub generate_token : JwtUtil → String → List (String × String) → ℤ → App e String
  unfolding now
  generate_token util subject claims valid_for = do
    issued ← now
    or_runtime_error "Error generating token: " (
        jwt.sign util.secret (record {
          issuer = util.issuer;
          type = "JWT";
          issued_at = issued;
          expires_at = issued +ℤ valid_for;
          subject = subject;
          payload = claims;
        }))

  unfoldable pub is_token_expired : String → App e Bool
  unfolding now
  is_token_expired token = do
    exp ←
        or_runtime_error "Error checking token expiration: "
          (and_then (jwt.decode token) jwt.get_expires_at)
    t ← now
    pure (lt_int exp t)

  -- The body of the `try` in `verifyToken`.
  check_token : JwtUtil → String → App e String
  unfolding jwt_call now is_token_expired
  check_token util token = do
    decoded ← jwt_call (jwt.decode token)
    t ← now
    if not (jwt.verify util.secret util.issuer 60 t decoded)
        then raise (std_exception "token verification failed")
        else do
          expired ← is_token_expired (jwt.get_token decoded)
          if expired then pure "" else pure (jwt.get_token decoded)

  unfoldable pub verify_token : JwtUtil → String → App e String
  unfolding check_token empty_on_exception
  verify_token util token w = let (r, v) = check_token util token w in (empty_on_exception r, v)

  unfoldable pub get_claim : String → String → App e String
  get_claim token claim_name =
      or_runtime_error "getting claim: "
        (and_then (jwt.decode token) (jwt.get_payload_claim claim_name))

  unfoldable pub get_subject : String → App e String
  get_subject token =
      or_runtime_error "Error getting subject: " (and_then (jwt.decode token) jwt.get_subject)
