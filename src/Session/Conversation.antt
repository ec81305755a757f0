-- ===== src/Session/Conversation.antt =====
-- A whole conversation on one socket.
use mathlib.Core.List.{Perm}
use mathlib.Core.List.Perm
use hm_music_player_back_end.Prelude.{
  ℕ, suc, String, ◌≡◌, refl, ap, Bool-cases, not, inl, inr, List, [], ◌∷◌, All, length,
  if◌then◌else◌,
}
use hm_music_player_back_end.Prelude.Effect.{ok}
use hm_music_player_back_end.External.{External}
use hm_music_player_back_end.App.{World}
use hm_music_player_back_end.App.Steady.{HasFront}
use hm_music_player_back_end.Http.{DumpsAscii, HttpResponse}
use hm_music_player_back_end.Jwt.{JwtUtil, jwt_util}
use hm_music_player_back_end.UserHandler.Steady.{IdFits}
use hm_music_player_back_end.Router.{no_routes}
use hm_music_player_back_end.Routes.{setup_routes}
use hm_music_player_back_end.Session.{Turn, unread, received, handle_request, run}
use hm_music_player_back_end.Session.Answers.{handle_request_answers, handle_request_front}

-- The responses that reach the client: one for each request, up to a read or a write that fails,
-- or to a request that ends the connection.
abbrev pub answered : List Turn → ℕ
answered [] = 0
answered (unread ∷ turns) = 0
answered (received request written ∷ turns) =
    let later = answered turns in
    if not written then 0 else if request.need_eof then 1 else suc later

-- The requests of a conversation have tokens whose ids fit, if they have good ones.
abbrev pub TurnFits : External → JwtUtil → Turn → Type 0
TurnFits e util unread = Unit {0}
TurnFits e util (received request written) = IdFits e util request.authorization

module _ (e : External) (dumps : DumpsAscii e) (secret : String) where
  abbrev Conversation : List Turn → World e → Type 0
  Conversation turns w =
      (responses : List HttpResponse) × ((run (setup_routes secret no_routes) turns w).0
        ≡ ok responses)
      × (length responses ≡ answered turns)
      × Perm (run (setup_routes secret no_routes) turns w).1.pool.connections w.pool.connections

  -- The conversation on a socket runs to its end, with one response for each request up to a read
  -- or a write that fails or to a request that ends the connection, and the pool holds the same
  -- connections as before, but for their order. Conditions: a connection is at hand, ASCII texts
  -- can be dumped, and the tokens of the requests that have a good signature carry an id that is
  -- an int.
  pub run_answers :
      (turns : List Turn) (w : World e)
      → All (TurnFits e (jwt_util secret)) turns
      → HasFront w.pool.connections
      → (responses : List HttpResponse) × ((run (setup_routes secret no_routes) turns w).0
          ≡ ok responses)
        × (length responses ≡ answered turns)
        × Perm (run (setup_routes secret no_routes) turns w).1.pool.connections w.pool.connections
  unfolding run
  run_answers [] w fit f = ([], refl, refl, Perm.refl _)
  run_answers (unread ∷ turns) w fit f = ([], refl, refl, Perm.refl _)
  run_answers (received request written ∷ turns) w fit f =
      let ((res, told), same) = handle_request_answers e dumps secret request w fit.0 f in
      let (rest, run_told, count, kept) =
        run_answers turns (handle_request (setup_routes secret no_routes) request w).1 fit.1
          (handle_request_front e dumps secret request w fit.0 f) in
      elim (Bool-cases written) [
        | inr lost ↦ ([], simp (told, lost) refl, simp lost refl, simp (told, lost) same)
        | inl sent ↦ elim (Bool-cases request.need_eof) [
          | inl last ↦ (
            res ∷ [],
            simp (told, sent, last) refl,
            simp (sent, last) refl,
            simp (told, sent, last) same,
          )
          | inr more ↦ (
            res ∷ rest,
            simp (told, sent, more, run_told) refl,
            simp (sent, more) (ap suc count),
            simp (told, sent, more, run_told) (Perm.trans kept same),
          )
        ]
      ]
