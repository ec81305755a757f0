-- ===== src/UserDao/Blocks.antt =====
-- A method of one statement, on what the server answers.
use hm_music_player_back_end.Prelude.{ℕ, String, ◌≡◌, refl, true, false, ltb, none, some, List, ◌∷◌}
use hm_music_player_back_end.Prelude.Effect.{ok}
use hm_music_player_back_end.External.{External, Param}
use hm_music_player_back_end.App.{World, sql_call, catch_sql, recover, with_connection}
use hm_music_player_back_end.App.Connection.{inside, rotated, with_connection-Keeps}
use hm_music_player_back_end.UserDao.{affects, executes}
use hm_music_player_back_end.UserDao.Connection.{affects-Keeps, executes-Keeps}

module _ {e : External} (w : World e) (c : ℕ) (cs : List ℕ)
    (lent : w.pool.connections ≡ c ∷ cs) where
  -- A statement that the server runs, or refuses, in a block of one.
  pub executes_done :
      (statement : String) (params : List Param) (d : e.sql.Db) (n : ℕ)
      → e.sql.execute_update c statement params (inside c cs w).db ≡ (d, some n)
      → catch_sql false (with_connection (executes statement params)) w
        ≡ (ok true, rotated c cs w d)
  unfolding catch_sql recover executes sql_call
  executes_done statement params d n h =
      let run =
        (with_connection-Keeps (executes statement params) (executes-Keeps _ _) w c cs lent).0 in
      rw (run, h) refl

  pub affects_done :
      (statement : String) (params : List Param) (d : e.sql.Db) (n : ℕ)
      → e.sql.execute_update c statement params (inside c cs w).db ≡ (d, some n)
      → catch_sql false (with_connection (affects statement params)) w
        ≡ (ok (ltb 0 n), rotated c cs w d)
  unfolding catch_sql recover affects sql_call
  affects_done statement params d n h =
      let run =
        (with_connection-Keeps (affects statement params) (affects-Keeps _ _) w c cs lent).0 in
      rw (run, h) refl

  pub affects_refused :
      (statement : String) (params : List Param) (d : e.sql.Db)
      → e.sql.execute_update c statement params (inside c cs w).db ≡ (d, none)
      → catch_sql false (with_connection (affects statement params)) w
        ≡ (ok false, rotated c cs w d)
  unfolding catch_sql recover affects sql_call
  affects_refused statement params d h =
      let run =
        (with_connection-Keeps (affects statement params) (affects-Keeps _ _) w c cs lent).0 in
      rw (run, h) refl
