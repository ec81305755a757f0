-- ===== src/Server.antt =====
-- src/server/Server.{h,cpp}: the server's object and what happens to it. The worker threads run
-- completion handlers one at a time; `m_ioc` is here its flag of `stop`, `m_threads` the number of
-- threads that can be joined, and an accepted connection the count of the sessions that were run.
pub mod Lifecycle
use hm_music_player_back_end.Prelude.{
  ℕ, zero, suc, ◌-◌, ℤ, pos, negsuc, pos_part, lt_int, String, Bool, true, false, ◌||◌, ◌==◌,
  Option, none, some, List, [], ◌∷◌, nat_eq, if◌then◌else◌,
}
use hm_music_player_back_end.Prelude.Effect.{std_exception, Result, ok, throw, pure, ◌>>=◌}
use hm_music_player_back_end.External.{External, Asio, Try, done, failed}
use hm_music_player_back_end.App.{World, App}
use hm_music_player_back_end.VerifyService.Calls.{cleanup_expired_codes}

-- The members whose state changes. `accepts` counts the calls of `async_accept` that have not
-- completed yet.
pub record Server : Type 0 where
  pub num_threads : ℤ
  pub threads : ℕ
  pub acceptor : Bool
  pub accepts : ℕ
  pub stopped : Bool
  pub work_guard : Bool
  pub sessions : ℕ
  pub running : Bool

-- The endpoint's address.
address : (a : Asio) → String → Try a.Address
address a ip = if ip == "0.0.0.0" then done a.v4_any else a.make_address ip

abbrev pub listening_server : ℤ → Server
listening_server num_threads = record {
  num_threads = num_threads;
  threads = 0;
  acceptor = true;
  accepts = 0;
  stopped = false;
  work_guard = true;
  sessions = 0;
  running = false;
}

listening : ℤ → Try (Unit {0}) → Result Server
listening num_threads (failed what) = throw (std_exception what)
listening num_threads (done u) = ok (listening_server num_threads)

bound : (a : Asio) → ℕ → ℤ → Try a.Address → Result Server
unfolding listening
bound a port num_threads (failed what) = throw (std_exception what)
bound a port num_threads (done at) = listening num_threads (a.listen at port)

-- The constructor.
unfoldable pub new_server : Asio → String → ℕ → ℤ → Result Server
unfolding address bound
new_server a ip port num_threads = bound a port num_threads (address a ip)

unfoldable pub do_accept : Server → Server
do_accept s = if s.running then record s { accepts = suc s.accepts } else s

-- The handler of `async_accept`; `ec` tells whether there is an error.
unfoldable pub on_accept : Bool → Server → Server
unfolding do_accept
on_accept ec s = do_accept (if ec then s else record s { sessions = suc s.sessions })

-- A completion: it comes where an accept is under way and a thread is in `m_ioc.run()`.
completion_of : ℕ → Bool → Server → Server
unfolding on_accept
completion_of zero ec s = s
completion_of (suc n) ec s =
    if s.stopped || nat_eq s.threads 0 then s else on_accept ec (record s { accepts = n })

unfoldable pub completion : Bool → Server → Server
unfolding completion_of
completion ec s = completion_of s.accepts ec s

unfoldable pub completions : List Bool → Server → Server
unfolding completion
completions [] s = s
completions (ec ∷ ecs) s = completions ecs (completion ec s)

-- `stop`. The threads go on until `m_ioc.stop()`: `ecs` are the accepts that complete after
-- `m_acceptor.close()` and before it.
unfoldable pub stop : List Bool → Server → Server
unfolding completions
stop ecs s =
    let closed = completions ecs (record s { acceptor = false }) in
    let joined = record closed {
      stopped = true;
      work_guard = false;
      threads = 0;
      running = false;
    } in
    if s.running then joined else s

-- What happens while the main thread sleeps: a completion, or the signal, whose handler calls
-- `stop`.
pub data Event : Type 0 where
  accepted : Bool → Event
  signal : List Bool → Event

unfoldable pub on_event : Event → Server → Server
unfolding completion stop
on_event (accepted ec) s = completion ec s
on_event (signal ecs) s = stop ecs s

unfoldable pub on_events : List Event → Server → Server
unfolding on_event
on_events [] s = s
on_events (v ∷ vs) s = on_events vs (on_event v s)

-- `run` before its loop: a negative number of threads is beyond the largest size of a vector.
-- The instance of VerifyService is made on the first call, so it is never null.
unfoldable pub start : Server → Result (Unit {0}) × Server
unfolding do_accept
start s =
    let accepting = do_accept (record s { running = true }) in
    if lt_int s.num_threads (pos 0)
    then (throw (std_exception "vector::reserve"), accepting)
    else (ok tt, record accepting { threads = pos_part s.num_threads })

module _ {e : External} where
  -- The loop of `run`; each turn has the events of its five seconds. `none`: the loop goes on when
  -- there are no more of them.
  unfoldable pub run_loop : List (List Event) → Server → App e (Option Server)
  unfolding on_events
  run_loop [] s = pure (if s.running then none else some s)
  run_loop (vs ∷ turns) s = elim s.running [
    | false ↦ pure (some s)
    | true ↦ let slept = on_events vs s in (do _ ← cleanup_expired_codes; run_loop turns slept)
  ]
