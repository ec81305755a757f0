-- ===== src/Jwt/Steady.antt =====
-- The calls of JWTUtil do nothing undefined.
use hm_music_player_back_end.Prelude.{ℤ, String, List}
use hm_music_player_back_end.Prelude.Effect.{Result, ok, throw, fault}
use hm_music_player_back_end.External.{External, Try, done, failed}
use hm_music_player_back_end.App.Steady.{IsSteady, IsDefined, steady_rules}
use hm_music_player_back_end.Jwt.{
  JwtUtil, generate_token, verify_token, or_runtime_error, check_token, empty_on_exception,
  jwt_call, is_token_expired,
}

empty-IsDefined : (r : Result String) → IsDefined r → IsDefined (empty_on_exception r)
unfolding empty_on_exception
empty-IsDefined (ok a) h = h
empty-IsDefined (throw x) h = tt
empty-IsDefined fault h = h

module _ {e : External} where
  pub or_runtime_error-IsSteady :
      {A : Type 0} (text : String) (r : Try A) → IsSteady {e = e} (or_runtime_error text r)
  or_runtime_error-IsSteady text (done a) = search steady_rules
  or_runtime_error-IsSteady text (failed what) = search steady_rules

  pub generate_token-IsSteady :
      (u : JwtUtil) (s : String) (cs : List (String × String)) (t : ℤ)
      → IsSteady (generate_token {e = e} u s cs t)
  unfolding generate_token
  generate_token-IsSteady u s cs t = search (steady_rules, or_runtime_error-IsSteady)

  is_token_expired-IsSteady : (token : String) → IsSteady (is_token_expired {e = e} token)
  unfolding is_token_expired
  is_token_expired-IsSteady token = search (steady_rules, or_runtime_error-IsSteady)

  check_token-IsSteady : (u : JwtUtil) (token : String) → IsSteady (check_token {e = e} u token)
  unfolding check_token jwt_call
  check_token-IsSteady u token =
      search (steady_rules, or_runtime_error-IsSteady, is_token_expired-IsSteady) depth 12

  pub verify_token-IsSteady :
      (u : JwtUtil) (token : String) → IsSteady (verify_token {e = e} u token)
  unfolding verify_token
  verify_token-IsSteady u token =
      let s = check_token-IsSteady u token in
      record { defined = λ w h. empty-IsDefined _ (s.defined w h); front = s.front; same = s.same }
