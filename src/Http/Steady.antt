-- ===== src/Http/Steady.antt =====
-- Building a response does nothing undefined.
use hm_music_player_back_end.Prelude.{ℕ, String, ◌≡◌, refl, true, [], ◌∷◌}
use hm_music_player_back_end.Prelude.Effect.{ok}
use hm_music_player_back_end.External.{External, Init, string}
use hm_music_player_back_end.App.{World}
use hm_music_player_back_end.App.Steady.{IsSteady, steady_rules}
use hm_music_player_back_end.Http.{
  HttpResponse, DumpsAscii, ascii_init, ascii_inits, is_ascii, object, pair, response, success,
  Status, build_error_response, respond,
}

module _ {e : External} where
  pub error-IsSteady :
      (s : Status) (v : ℕ) (m : String) → IsSteady (build_error_response {e = e} s v m)
  unfolding build_error_response
  error-IsSteady s v m = search steady_rules

  pub respond-IsSteady : (v : ℕ) (i : Init) → IsSteady (respond {e = e} v i)
  unfolding respond
  respond-IsSteady v i = search steady_rules

  -- A response whose texts are ASCII is built.
  pub respond_ascii :
      (d : DumpsAscii e) (v : ℕ) (i : Init) (w : World e)
      → ascii_init i ≡ true
      → (r : HttpResponse) × (respond v i w ≡ (ok r, w))
  unfolding respond
  respond_ascii d v i w h = let (s, e) = d i h in (response success v s, rw e refl)

  pub error_ascii :
      (d : DumpsAscii e) (st : Status) (v : ℕ) (m : String) (w : World e)
      → is_ascii m ≡ true
      → (r : HttpResponse) × (build_error_response st v m w ≡ (ok r, w))
  unfolding build_error_response ascii_init ascii_inits
  error_ascii d st v m w h =
      let (s, e) = d (object (pair "error" (string m) ∷ [])) (rw h) in (response st v s, rw e refl)

  -- The answer to an error whose message is ASCII.
  pub error_ascii_response :
      (d : DumpsAscii e) (st : Status) (v : ℕ) (m : String) (w : World e)
      → is_ascii m ≡ true
      → (s : String) × (build_error_response st v m w ≡ (ok (response st v s), w))
  unfolding build_error_response ascii_init ascii_inits
  error_ascii_response d st v m w h =
      let (s, e) = d (object (pair "error" (string m) ∷ [])) (rw h) in (s, rw e refl)

  pub respond_ascii_response :
      (d : DumpsAscii e) (v : ℕ) (i : Init) (w : World e)
      → ascii_init i ≡ true
      → (s : String) × (respond v i w ≡ (ok (response success v s), w))
  unfolding respond
  respond_ascii_response d v i w h = let (s, e) = d i h in (s, rw e refl)
