-- ===== src/Server/Lifecycle.antt =====
-- What becomes of a server that `run` started.
use hm_music_player_back_end.Prelude.{
  ℕ, suc, ◌+◌, ℤ, pos, String, Bool, Bool-cases, true, false, not, ◌||◌, ◌≡◌, refl, ap, ◌⊎◌, inl,
  inr, Option, none, some, List, [], ◌∷◌, if◌then◌else◌, arith,
}
use hm_music_player_back_end.Prelude.Effect.{Exception, Result, ok, throw}
use hm_music_player_back_end.External.{External, Asio, Try, done, failed}
use hm_music_player_back_end.App.{World, now}
use hm_music_player_back_end.VerifyService.Calls.{sweep, cleanup_expired_codes}
use hm_music_player_back_end.Server.{
  Server, address, listening, bound, listening_server, new_server, do_accept, on_accept,
  completion_of, completion, completions, stop, Event, accepted, signal, on_event, on_events, start,
  run_loop,
}

-- The connections among completed accepts, and among what happens up to the first signal.
abbrev pub successes : List Bool → ℕ
successes [] = 0
successes (ec ∷ ecs) = if ec then successes ecs else suc (successes ecs)

abbrev pub served : List Event → ℕ
served [] = 0
served (accepted ec ∷ vs) = if ec then served vs else suc (served vs)
served (signal ecs ∷ vs) = successes ecs

abbrev pub is_signalled : List Event → Bool
is_signalled [] = false
is_signalled (accepted ec ∷ vs) = is_signalled vs
is_signalled (signal ecs ∷ vs) = true

-- A server that runs with this many threads and sessions: one accept is under way.
abbrev up : ℤ → ℕ → Bool → Bool → ℕ → Server
up k n listens guard c = record {
  num_threads = k;
  threads = suc n;
  acceptor = listens;
  accepts = 1;
  stopped = false;
  work_guard = guard;
  sessions = c;
  running = true;
}

-- One that was stopped.
abbrev down : ℤ → ℕ → Server
down k c = record {
  num_threads = k;
  threads = 0;
  acceptor = false;
  accepts = 1;
  stopped = true;
  work_guard = false;
  sessions = c;
  running = false;
}

completion-up :
    (k : ℤ) (n : ℕ) (listens guard : Bool) (c : ℕ) (ec : Bool)
    → completion ec (up k n listens guard c) ≡ up k n listens guard (c + successes (ec ∷ []))
unfolding completion completion_of on_accept do_accept
completion-up k n listens guard c ec = grind arith

completions-up :
    (k : ℤ) (n : ℕ) (listens guard : Bool) (c : ℕ) (ecs : List Bool)
    → completions ecs (up k n listens guard c) ≡ up k n listens guard (c + successes ecs)
unfolding completions
completions-up k n listens guard c [] = grind arith
completions-up k n listens guard c (ec ∷ ecs) =
    let h = completion-up k n listens guard c ec in
    let t = completions-up k n listens guard (c + successes (ec ∷ [])) ecs in grind arith

stop-up :
    (k : ℤ) (n c : ℕ) (ecs : List Bool) → stop ecs (up k n true true c) ≡ down k (c + successes ecs)
unfolding stop
stop-up k n c ecs = let h = completions-up k n false true c ecs in rw h refl

completion-down : (k : ℤ) (c : ℕ) (ec : Bool) → completion ec (down k c) ≡ down k c
unfolding completion completion_of
completion-down k c ec = refl

-- Nothing happens to it any more.
on_events-down : (k : ℤ) (c : ℕ) (vs : List Event) → on_events vs (down k c) ≡ down k c
unfolding on_events on_event stop
on_events-down k c [] = refl
on_events-down k c (accepted ec ∷ vs) = rw (completion-down k c ec) (on_events-down k c vs)
on_events-down k c (signal ecs ∷ vs) = on_events-down k c vs

on_events-up :
    (k : ℤ) (n c : ℕ) (vs : List Event)
    → on_events vs (up k n true true c)
      ≡ (if is_signalled vs then down k (c + served vs) else up k n true true (c + served vs))
unfolding on_events on_event
on_events-up k n c [] = grind arith
on_events-up k n c (accepted ec ∷ vs) =
    let h = completion-up k n true true c ec in
    let t = on_events-up k n (c + successes (ec ∷ [])) vs in grind arith
on_events-up k n c (signal ecs ∷ vs) =
    rw (stop-up k n c ecs) (on_events-down k (c + successes ecs) vs)

listening_lem :
    (k : ℤ) (t : Try (Unit {0})) (s : Server) → listening k t ≡ ok s → s ≡ listening_server k
unfolding listening
listening_lem k (failed what) s h = cc
listening_lem k (done u) s h = cc

bound_lem :
    (a : Asio) (port : ℕ) (k : ℤ) (t : Try a.Address) (s : Server)
    → bound a port k t ≡ ok s
    → s ≡ listening_server k
unfolding bound
bound_lem a port k (failed what) s h = cc
bound_lem a port k (done at) s h = listening_lem k (a.listen at port) s h

-- The constructor returns a server or throws.
abbrev pub Made : Result Server → Type 0
Made r = ((s : Server) × (r ≡ ok s)) ⊎ ((x : Exception) × (r ≡ throw x))

listening-Made : (k : ℤ) (t : Try (Unit {0})) → Made (listening k t)
unfolding listening
listening-Made k (failed what) = inr (_, refl)
listening-Made k (done u) = inl (_, refl)

bound-Made : (a : Asio) (port : ℕ) (k : ℤ) (t : Try a.Address) → Made (bound a port k t)
unfolding bound
bound-Made a port k (failed what) = inr (_, refl)
bound-Made a port k (done at) = listening-Made k (a.listen at port)

pub new_server-Made : (a : Asio) (ip : String) (port : ℕ) (k : ℤ) → Made (new_server a ip port k)
unfolding new_server
new_server-Made a ip port k = bound-Made a port k (address a ip)

start-up :
    (a : Asio) (ip : String) (port n : ℕ) (s : Server)
    → new_server a ip port (pos (suc n)) ≡ ok s
    → start s ≡ (ok tt, up (pos (suc n)) n true true 0)
unfolding start new_server do_accept
start-up a ip port n s h =
    let f = bound_lem a port (pos (suc n)) (address a ip) s h in rw f (grind arith)

pub start_returns :
    (a : Asio) (ip : String) (port n : ℕ) (s : Server)
    → new_server a ip port (pos (suc n)) ≡ ok s
    → (start s).0 ≡ ok tt
start_returns a ip port n s h = ap (λ p. p.0) (start-up a ip port n s h)

-- Whatever happens to a server that was made with one thread or more and started: it has run a
-- session for each connection accepted up to the end of the first stop, it runs as long as no
-- signal came, with all its threads, and never more than one accept is under way.
pub serve_lem :
    (a : Asio) (ip : String) (port n : ℕ) (s : Server) (vs : List Event)
    → new_server a ip port (pos (suc n)) ≡ ok s
    → ((on_events vs (start s).1).sessions ≡ served vs)
      × ((on_events vs (start s).1).running ≡ not (is_signalled vs))
      × ((on_events vs (start s).1).accepts ≡ 1)
      × ((on_events vs (start s).1).threads ≡ (if is_signalled vs then 0 else suc n))
serve_lem a ip port n s vs h =
    let u = start-up a ip port n s h in let v = on_events-up (pos (suc n)) n 0 vs in grind arith

abbrev pub any_signalled : List (List Event) → Bool
any_signalled [] = false
any_signalled (vs ∷ turns) = is_signalled vs || any_signalled turns

abbrev pub Ends : Result (Option Server) → List (List Event) → Type 0
Ends r turns =
    ((s : Server) × (r ≡ ok (some s))
      × (s.threads ≡ 0)
      × (s.acceptor ≡ false)
      × (any_signalled turns ≡ true))
    ⊎ ((r ≡ ok none) × (any_signalled turns ≡ false))

module _ {e : External} where
  run_loop-down :
      (k : ℤ) (c : ℕ) (turns : List (List Event)) (w : World e)
      → (run_loop turns (down k c) w).0 ≡ ok (some (down k c))
  unfolding run_loop
  run_loop-down k c [] w = refl
  run_loop-down k c (vs ∷ turns) w = refl

  run_loop-up :
      (k : ℤ) (n c : ℕ) (turns : List (List Event)) (w : World e)
      → Ends (run_loop turns (up k n true true c) w).0 turns
  unfolding run_loop cleanup_expired_codes now sweep
  run_loop-up k n c [] w = inr (refl, refl)
  run_loop-up k n c (vs ∷ turns) w =
      let u = on_events-up k n c vs in
      let w' = (cleanup_expired_codes w).1 in
      elim (Bool-cases (is_signalled vs)) [
        | inl y ↦
            let v : on_events vs (up k n true true c) ≡ down k (c + served vs) = grind arith in
            inl (
              down k (c + served vs),
              rw v (run_loop-down k (c + served vs) turns w'),
              refl,
              refl,
              grind arith,
            )
        | inr r ↦
            let v : on_events vs (up k n true true c) ≡ up k n true true (c + served vs) =
              grind arith in
            let t = run_loop-up k n (c + served vs) turns w' in rw v (rw r t)
      ]

  -- The loop of run on a server that was made with one thread or more ends exactly where a signal
  -- comes in one of its turns; then all threads are joined and the acceptor is closed.
  pub run_loop_lem :
      (a : Asio) (ip : String) (port n : ℕ) (s : Server) (turns : List (List Event)) (w : World e)
      → new_server a ip port (pos (suc n)) ≡ ok s
      → Ends (run_loop turns (start s).1 w).0 turns
  run_loop_lem a ip port n s turns w h =
      let u = start-up a ip port n s h in rw u (run_loop-up (pos (suc n)) n 0 turns w)
