-- ===== src/Jwt/Tokens.antt =====
-- What `verifyToken` accepts.
use hm_music_player_back_end.Prelude.{
  ℕ, suc, ℤ, lt_int, String, ◌≡◌, refl, ◌⊎◌, inl, inr, Bool-cases, true, false, some, ◌==◌,
}
use hm_music_player_back_end.Prelude.Dict.{find}
use hm_music_player_back_end.Prelude.Effect.{Result, ok}
use hm_music_player_back_end.External.{External, JwtLib, Claims, Try, done, failed}
use hm_music_player_back_end.App.{World, now}
use hm_music_player_back_end.Jwt.{
  JwtUtil, and_then, jwt_call, is_token_expired, check_token, empty_on_exception, verify_token,
}

-- What jwt-cpp documents of a token that it signed: it can be decoded, with its claims and with
-- the expiry, in whole seconds, and is accepted under the secret and the issuer from the time of
-- issue to the expiry.
pub record IsIssued (jwt : JwtLib) (secret : String) (c : Claims) (token : String) : Type 0 where
  pub decoded : jwt.Decoded
  pub decodes : jwt.decode token ≡ done decoded
  pub text : jwt.get_token decoded ≡ token
  pub nonempty : (token == "") ≡ false
  pub expires_at : ℤ
  pub expires : jwt.get_expires_at decoded ≡ done expires_at
  pub accepted :
      (t : ℤ)
      → lt_int t c.issued_at ≡ false
      → lt_int expires_at t ≡ false
      → jwt.verify secret c.issuer 60 t decoded ≡ true
  pub keeps :
      (name value : String)
      → find name c.payload ≡ some value
      → jwt.get_payload_claim name decoded ≡ done value

module _ {e : External} where
  open e.jwt use {decode, verify, get_token, get_expires_at}

  -- A token is decoded, its signature, issuer and claims are accepted with a leeway of 60 seconds,
  -- and the time of its expiry has not passed.
  pub record IsValid (util : JwtUtil) (token : String) (w : World e) : Type 0 where
    pub decoded : e.jwt.Decoded
    pub decodes : decode token ≡ done decoded
    pub verified : verify util.secret util.issuer 60 (w.clock w.reads) decoded ≡ true
    pub expires_at : ℤ
    pub expires : and_then (decode (get_token decoded)) get_expires_at ≡ done expires_at
    pub in_time : lt_int expires_at (w.clock (suc w.reads)) ≡ false

  -- A valid token is accepted, with two reads of the clock.
  pub verify_token-IsValid :
      (util : JwtUtil) (token : String) (w : World e) (h : IsValid util token w)
      → verify_token util token w
        ≡ (ok (get_token h.decoded), record w { reads = suc (suc w.reads) })
  unfolding verify_token check_token empty_on_exception jwt_call now is_token_expired
  verify_token-IsValid util token w h = rw (h.decodes, h.verified, h.expires, h.in_time) refl

  -- It is valid as long as its time is not over.
  unfoldable pub IsIssued-IsValid :
      (util : JwtUtil) (c : Claims) (token : String) (w : World e)
      → c.issuer ≡ util.issuer
      → (i : IsIssued e.jwt util.secret c token) → lt_int (w.clock w.reads) c.issued_at ≡ false
      → lt_int i.expires_at (w.clock w.reads) ≡ false
      → lt_int i.expires_at (w.clock (suc w.reads)) ≡ false
      → IsValid util token w
  IsIssued-IsValid util c token w same i late early early' = record {
    decoded = i.decoded;
    decodes = i.decodes;
    verified = rw (← same) (i.accepted (w.clock w.reads) late early);
    expires_at = i.expires_at;
    expires = rw (i.text, i.decodes) i.expires;
    in_time = early';
  }

  -- The empty text, or the text of a valid token; nothing changes but the count of the reads.
  abbrev pub Verified : JwtUtil → String → World e → Result String × World e → Type 0
  Verified util token w r =
      (n : ℕ) × ((r ≡ (ok "", record w { reads = n }))
        ⊎ ((h : IsValid util token w) × (r ≡ (ok (get_token h.decoded), record w { reads = n }))))

  -- verifyToken always returns and changes nothing but the count of the reads of the clock. It
  -- gives the empty text, or else the text of a token that is decoded, whose signature, issuer and
  -- claims are accepted with a leeway of 60 seconds, and whose expiry has not passed.
  pub verify_token_lem :
      (util : JwtUtil) (token : String) (w : World e)
      → Verified util token w (verify_token util token w)
  unfolding verify_token check_token empty_on_exception jwt_call now is_token_expired
  verify_token_lem util token w = go (decode token) refl
    where
      timed :
          (d : e.jwt.Decoded)
          → decode token ≡ done d
          → verify util.secret util.issuer 60 (w.clock w.reads) d ≡ true
          → (r : Try ℤ) → and_then (decode (get_token d)) get_expires_at ≡ r
          → Verified util token w (verify_token util token w)
      timed d i v (failed what) x = (suc w.reads, inl (rw (i, v, x) refl))
      timed d i v (done t) x = elim (Bool-cases (lt_int t (w.clock (suc w.reads)))) [
        | inl late ↦ (suc (suc w.reads), inl (rw (i, v, x, late) refl))
        | inr early ↦ (
          suc (suc w.reads),
          inr (
            record {
              decoded = d;
              decodes = i;
              verified = v;
              expires_at = t;
              expires = x;
              in_time = early;
            },
            rw (i, v, x, early) refl,
          ),
        )
      ]

      go :
          (r : Try e.jwt.Decoded)
          → decode token ≡ r
          → Verified util token w (verify_token util token w)
      go (failed what) i = (w.reads, inl (rw i refl))
      go (done d) i = elim (Bool-cases (verify util.secret util.issuer 60 (w.clock w.reads) d)) [
        | inl v ↦ timed d i v _ refl
        | inr v ↦ (suc w.reads, inl (rw (i, v) refl))
      ]
