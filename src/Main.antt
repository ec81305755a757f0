-- ===== src/Main.antt =====
-- src/server/main.cpp: `main`. `setupRoutes` stands in Routes.antt.
pub mod Exit
use hm_music_player_back_end.Prelude.{ℕ, String, Bool, true, false, Option, none, some, List}
use hm_music_player_back_end.Prelude.Effect.{Result, ok, throw, fault}
use hm_music_player_back_end.External.{External, Asio}
use hm_music_player_back_end.Config.{Config, load_from_file}
use hm_music_player_back_end.Pool.{Pool}
use hm_music_player_back_end.Pool.Opening.{Address, init}
use hm_music_player_back_end.App.{World}
use hm_music_player_back_end.Server.{Server, Event, new_server, start, run_loop}

abbrev database_address : Config → Address
database_address c = record {
  host = c.db_config.host;
  port = c.db_config.port;
  user = c.db_config.user;
  passwd = c.db_config.password;
  db_name = c.db_config.dbname;
}

-- The status, once the loop of `run` has ended or thrown; `none` before.
exit_code : Result (Option Server) → Option ℕ
exit_code (ok (some s)) = some 0
exit_code (ok none) = none
exit_code (throw x) = some 1
exit_code fault = none

module _ {e : External} where
  -- The instances of Config and DBManager in the world that the handlers work on.
  installed : Config → Option Pool × e.sql.Db → World e → World e
  installed c (none, db) w = record w { config = c.verify_service_config; db = db }
  installed c (some p, db) w = record w { config = c.verify_service_config; pool = p; db = db }

  running : List (List Event) → Result (Unit {0}) × Server → World e → Option ℕ × World e
  unfolding exit_code run_loop
  running turns (ok u, s) w = let (r, v) = run_loop turns s w in (exit_code r, v)
  running turns (throw x, s) w = (some 1, w)
  running turns (fault, s) w = (none, w)

  -- From the server's constructor on. Between it and `start` come setupRoutes, which is in Routes,
  -- and the pointer that the signal handler uses.
  serving : List (List Event) → Result Server → World e → Option ℕ × World e
  unfolding running start
  serving turns (ok s) w = running turns (start s) w
  serving turns (throw x) w = (some 1, w)
  serving turns fault w = (none, w)

  loaded :
      Asio → List (List ℕ) → List (List Event) → Result Bool → Config → World e → Option ℕ × World e
  unfolding serving installed init new_server
  loaded a arrivals turns (ok true) c w =
      serving turns (new_server a c.server_config.host c.server_config.port c.server_config.threads)
        (installed c
          (init e.sql (database_address c) c.db_config.connection_pool_size arrivals (none, w.db))
          w)
  loaded a arrivals turns (ok false) c w = (some 1, w)
  loaded a arrivals turns (throw x) c w = (some 1, w)
  loaded a arrivals turns fault c w = (none, w)

  -- The exit status, where the program ends, and the world that is left. `arrivals` are the waits
  -- for connections and `turns` the events of the server's loop that are to come.
  unfoldable pub main :
      Asio → List (List ℕ) → List (List Event) → Config → World e → Option ℕ × World e
  unfolding loaded load_from_file
  main a arrivals turns c w =
      let (r, d) = load_from_file e "config.json" w.disk c in loaded a arrivals turns r d w
