-- ===== src/Pool/Threads.antt =====
-- src/database/DBManager.{h,cpp}: the pool among threads that call `getConnection` and, through
-- SqlConnGuard, `releaseConnection`. Each takes the lock, so that a call is one step; a thread
-- that waits takes its step when it wakes up.
pub mod Exclusion
use hm_music_player_back_end.Prelude.{ℕ, ◌≡◌, Option, none, some, List, [], ◌∷◌, ◌++◌}
use hm_music_player_back_end.Pool.{Pool, take_connection, release_connection}

-- `held` has the threads with the connections of their guards.
pub record Sharing : Type 0 where
  pub pool : Pool
  pub held : List (ℕ × ℕ)

-- A thread gets a connection, or runs into the time limit, or its guard gives one back.
pub data Step : Sharing → Sharing → Type 0 where
  gets :
      (thread c : ℕ) (s : Sharing) (q : Pool)
      → take_connection s.pool ≡ (some c, q)
      → Step s (record { pool = q; held = (thread, c) ∷ s.held })
  times_out :
      (s : Sharing) (q : Pool) → take_connection s.pool ≡ (none, q) → Step s (record s { pool = q })
  gives :
      (thread c : ℕ) (s : Sharing) (before after : List (ℕ × ℕ))
      → s.held ≡ before ++ (thread, c) ∷ after
      → Step s (record { pool = release_connection c s.pool; held = before ++ after })

pub data Reach (start : Sharing) : Sharing → Type 0 where
  here : Reach start start
  later : {s t : Sharing} → Reach start s → Step s t → Reach start t
