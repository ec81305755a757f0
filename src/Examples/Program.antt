-- ===== src/Examples/Program.antt =====
-- The theorems on the start, the settings and the play history at concrete inputs.
use mathlib.Core.List.{Perm}
use hm_music_player_back_end.Prelude.{
  ℕ, pos, int_eq, ltb, String, ◌<◌, ◌≡◌, refl, ◌⊎◌, true, false, none, some, List, [], ◌∷◌, ◌++◌,
  length, if◌then◌else◌, arith,
}
use hm_music_player_back_end.Prelude.Effect.{Exception, ok, throw, fault}
use hm_music_player_back_end.External.{External, JsonLib, Asio, done}
use hm_music_player_back_end.Models.{PlayHistory}
use hm_music_player_back_end.Config.{default_config, load_from_file}
use hm_music_player_back_end.Config.Loading.{is_loadable, configured, load_from_file_lem}
use hm_music_player_back_end.Config.Sections.{server_of}
use hm_music_player_back_end.Pool.Laws.{owned}
use hm_music_player_back_end.Pool.Opening.{Address, open_connection, db_manager}
use hm_music_player_back_end.Pool.Opening.Size.{db_manager-size}
use hm_music_player_back_end.App.{World}
use hm_music_player_back_end.Email.Reading.{EmailData, read_callback}
use hm_music_player_back_end.Email.Reading.Delivery.{deliver, read_callback-deliver}
use hm_music_player_back_end.PlayHistoryDao.{add_play_history, int_max}
use hm_music_player_back_end.PlayHistoryDao.Connection.{history_call, adds, history_call_conserves}
use hm_music_player_back_end.PlayHistoryDao.Counts.{add_play_history_again}
use hm_music_player_back_end.Server.{
  Event, accepted, signal, new_server, listening_server, start, on_events, run_loop,
}
use hm_music_player_back_end.Server.Lifecycle.{Ends, serve_lem, run_loop_lem}
use hm_music_player_back_end.VerifyService.Threads.{sweeps, verify_code_among}
use hm_music_player_back_end.VerifyService.Threads.Pointer.{verify_code_among_lem}
use hm_music_player_back_end.Main.{main}
use hm_music_player_back_end.Main.Exit.{ExitsOnSignal, main_lem}
use hm_music_player_back_end.Examples.Outside.{outside, server, Db, of_id}
use hm_music_player_back_end.Examples.World.{pool, codes, ann_world, at_front}

abbrev song : PlayHistory
song = record {
  id = pos 0;
  user_id = pos 1;
  song_id = "s";
  song_name = "song";
  song_singer = "";
  song_pic = "";
  song_where = "";
  played_at = "2025";
  song_count = pos 0;
}

-- A server that finds a song played four times, and that does every UPDATE.
abbrev plays : External
plays = record outside {
  sql = record server {
    execute_query = λ c statement params db. (db, some (of_id (pos 4) ∷ []));
    execute_update = λ c statement params db. (db, some 1);
  };
}

abbrev plays_world : World plays
plays_world = record {
  db = record { entries = []; last = 0 };
  pool = pool;
  codes = [];
  net = 0;
  disk = [];
  config = default_config.verify_service_config;
  clock = pos;
  reads = 0;
  dice = λ n. 7;
  rolls = 0;
}

-- A value is known by its keys, which are all there; its number is three.
abbrev keys : JsonLib
keys = record {
  Json = String;
  parse = some;
  contains = λ key j. true;
  get_string = λ key j. some key;
  dump = λ i. some "{}";
  parse_first = some;
  at = λ key j. key;
  is_string = λ j. true;
  is_number_integer = λ j. true;
  text_of = λ j. j;
  integer_of = λ j. pos 3;
}

abbrev configured_outside : External
configured_outside = record outside { json = keys }

abbrev config_world : World configured_outside
config_world = record {
  db = record { entries = []; last = 0 };
  pool = pool;
  codes = [];
  net = 0;
  disk = ("config.json", "{}") ∷ [];
  config = default_config.verify_service_config;
  clock = pos;
  reads = 0;
  dice = λ n. 7;
  rolls = 0;
}

-- Every address can be listened at.
abbrev asio : Asio
asio = record {
  Address = String;
  v4_any = "0.0.0.0";
  make_address = λ ip. done ip;
  listen = λ address port. done tt;
}

abbrev two_turns : List (List Event)
two_turns = (accepted false ∷ accepted true ∷ []) ∷ (accepted false ∷ signal (false ∷ []) ∷ []) ∷ []

history_call_conserves_example :
    Perm (owned (history_call (adds song) plays_world).1.pool) (owned plays_world.pool)
history_call_conserves_example = history_call_conserves (adds song) plays_world

add_play_history_again_example :
    (add_play_history song plays_world).0 ≡ (if int_eq (pos 4) int_max then fault else ok (ltb 0 1))
add_play_history_again_example =
    add_play_history_again song plays_world at_front (of_id (pos 4)) [] _ _ (pos 4) (pos 4) 1 refl
      refl refl refl

load_from_file_lem_example :
    let r = load_from_file configured_outside "config.json" config_world.disk default_config in
    ((r.0 ≡ ok false) × (is_loadable configured_outside "config.json" config_world.disk ≡ false))
    ⊎ ((j : String) × (some "{}" ≡ some j)
        × (r ≡ (ok true, configured configured_outside j default_config))
        × (is_loadable configured_outside "config.json" config_world.disk ≡ true))
load_from_file_lem_example =
    load_from_file_lem configured_outside "config.json" config_world.disk default_config

abbrev local : Address
local = record {
  host = "localhost";
  port = 3306;
  user = "root";
  passwd = "";
  db_name = "MusicPlayer";
}

db_manager-size_example :
    let r = db_manager server local 3 [] (record { entries = []; last = 0 }) in
    (length r.0.connections ≡ 3)
    ⊎ ((length r.0.connections < 3)
        × ((before : Db) × (open_connection server local before ≡ (r.1, none))))
db_manager-size_example = db_manager-size server local 3 [] (record { entries = []; last = 0 })

-- Five calls of two bytes each, and the object that they read: five bytes, and what follows.
abbrev two_bytes : List (ℕ × ℕ)
two_bytes = (1, 2) ∷ (1, 2) ∷ (1, 2) ∷ (1, 2) ∷ (1, 2) ∷ []

abbrev five_bytes : EmailData ℕ
five_bytes = record { bytes = (1 ∷ 2 ∷ 3 ∷ 4 ∷ 5 ∷ []) ++ 0 ∷ []; size_left = 5 }

read_callback-deliver_example :
    ((deliver two_bytes five_bytes).0 ≡ 1 ∷ 2 ∷ 3 ∷ 4 ∷ 5 ∷ [])
    × ((read_callback 1 2 (deliver two_bytes five_bytes).1).1 ≡ 0)
read_callback-deliver_example =
    read_callback-deliver (1 ∷ 2 ∷ 3 ∷ 4 ∷ 5 ∷ []) (0 ∷ []) two_bytes 1 2
      (omega arith, (omega arith, (omega arith, (omega arith, (omega arith, tt))))) (omega arith)

serve_lem_example :
    let vs = accepted false ∷ accepted true ∷ signal (false ∷ []) ∷ [] in
    let s = on_events vs (start (listening_server (pos 4))).1 in
    (s.sessions ≡ 2) × (s.running ≡ false) × (s.accepts ≡ 1) × (s.threads ≡ 0)
unfolding new_server
serve_lem_example =
    serve_lem asio "0.0.0.0" 8080 3 (listening_server (pos 4))
      (accepted false ∷ accepted true ∷ signal (false ∷ []) ∷ []) refl

run_loop_lem_example :
    Ends (run_loop two_turns (start (listening_server (pos 4))).1 ann_world).0 two_turns
unfolding new_server
run_loop_lem_example =
    run_loop_lem asio "0.0.0.0" 8080 3 (listening_server (pos 4)) two_turns ann_world refl

main_lem_example :
    let r = main asio [] two_turns default_config config_world in
    ((r ≡ (some 1, config_world))
      × (is_loadable configured_outside "config.json" config_world.disk ≡ false))
    ⊎ ((j : String) × (some "{}" ≡ some j)
        × (((x : Exception) × (r.0 ≡ some 1)
              × (new_server asio
                    (server_of configured_outside "server").host
                    (server_of configured_outside "server").port
                    (pos 3)
                  ≡ throw x))
            ⊎ ExitsOnSignal r.0 two_turns))
main_lem_example = main_lem asio [] two_turns default_config config_world 2 (λ j h loads. refl)

-- A clean-up after the expiry of the entry comes between.
verify_code_among_lem_example :
    verify_code_among
      (sweeps (pos 50) ∷ sweeps (pos 200) ∷ [])
      codes
      (pos 60)
      "a@b.c"
      "register"
      "000000"
    ≡ fault
verify_code_among_lem_example =
    verify_code_among_lem (sweeps (pos 50) ∷ sweeps (pos 200) ∷ []) codes
      (record { code = "000000"; expire_time = pos 100; action = "register" }) (pos 60) "a@b.c"
      "register" "000000" (refl, tt) refl
