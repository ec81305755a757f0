-- ===== src/UserHandler/Authorized.antt =====
-- Requests whose token verifyToken accepts, and which carries the id of a user.
use hm_music_player_back_end.Prelude.{suc, ℤ, String, ◌≡◌, refl, false, some, ◌==◌}
use hm_music_player_back_end.Prelude.Effect.{ok}
use hm_music_player_back_end.External.{External, done}
use hm_music_player_back_end.Decimal.{atoi}
use hm_music_player_back_end.App.{World}
use hm_music_player_back_end.Jwt.{JwtUtil, and_then, verify_token, get_claim}
use hm_music_player_back_end.Jwt.Tokens.{IsValid, verify_token-IsValid}
use hm_music_player_back_end.UserHandler.{claimed_id, or_undefined}

pub record IsAuthorized {e : External} (util : JwtUtil) (authorization : String) (id : ℤ)
    (w : World e) : Type 0 where
  pub valid : IsValid util authorization w
  pub named : (e.jwt.get_token valid.decoded == "") ≡ false
  pub claim : String
  pub claims :
      and_then (e.jwt.decode (e.jwt.get_token valid.decoded)) (e.jwt.get_payload_claim "id")
      ≡ done claim
  pub reads_id : atoi claim ≡ some id

module _ {e : External} {util : JwtUtil} {authorization : String} {id : ℤ} {w : World e}
    (h : IsAuthorized util authorization id w) where
  abbrev pub accepted : String
  accepted = e.jwt.get_token h.valid.decoded

  pub verify_token-accepted :
      verify_token util authorization w ≡ (ok accepted, record w { reads = suc (suc w.reads) })
  verify_token-accepted = verify_token-IsValid util authorization w h.valid

  pub claimed_id-accepted : (v : World e) → claimed_id accepted v ≡ (ok id, v)
  unfolding claimed_id get_claim or_undefined
  claimed_id-accepted v = rw (h.claims, h.reads_id) refl
