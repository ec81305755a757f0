-- ===== src/PlayHistoryDao/Counts.antt =====
-- What `addPlayHistory` does to the count of a song.
use hm_music_player_back_end.Prelude.{
  ◌≡◌, refl, ℕ, ℤ, pos, ◌+ℤ◌, int_eq, ltb, String, Bool-cases, inl, inr, false, none, some, List,
  [], ◌∷◌, if◌then◌else◌,
}
use hm_music_player_back_end.Prelude.Effect.{ok, fault}
use hm_music_player_back_end.External.{External, Param, int, text}
use hm_music_player_back_end.Models.{PlayHistory}
use hm_music_player_back_end.App.{World, catch_sql, recover, sql_call, column}
use hm_music_player_back_end.App.Steady.{HasFront}
use hm_music_player_back_end.App.Connection.{inside, with_connection-result}
use hm_music_player_back_end.UserDao.{affects}
use hm_music_player_back_end.PlayHistoryDao.{
  int_max, increment, count_play, insert_play, count_or_insert, add_play, add_play_history,
}

abbrev pub find_statement : String
find_statement = "SELECT id, song_count FROM play_history WHERE user_id = ? AND song_id = ?"

abbrev pub insert_statement : String
insert_statement =
    "INSERT INTO play_history (user_id, song_id, song_name, song_singer, song_pic, song_where, played_at) VALUES (?, ?, ?, ?, ?, ?)"

abbrev pub count_statement : String
count_statement = "UPDATE play_history SET song_count = ? WHERE id = ?"

module _ {e : External} (history : PlayHistory) (w : World e)
    (f : HasFront w.pool.connections) where
  open e use {sql}

  -- The server as the block finds it.
  abbrev pub found_db : sql.Db
  found_db = (inside f.0 f.1 w).db

  added : (add_play_history history w).0 ≡ recover false (add_play history f.0 (inside f.0 f.1 w)).0
  unfolding add_play_history catch_sql
  added = rw (with_connection-result (add_play history) w f.0 f.1 f.2) refl

  -- With a connection at hand, where the song is not in the history and the server refuses the INSERT,
  -- addPlayHistory gives false.
  add_play_history_new :
      (d : sql.Db)
      → sql.execute_query f.0 find_statement
          (int history.user_id ∷ text history.song_id ∷ [])
          found_db
        ≡ (d, some [])
      → ((c : ℕ) (params : List Param) (v : sql.Db)
          → (sql.execute_update c insert_statement params v).1 ≡ none)
      → (add_play_history history w).0 ≡ ok false
  unfolding add_play count_or_insert insert_play affects sql_call recover
  add_play_history_new d none_found refused = rw (added, none_found, refused f.0 _ d) refl

  -- With a connection at hand, where the song is found in the user's history with a count, and the
  -- server does the UPDATE of the count to one more: addPlayHistory tells whether a row was
  -- changed; at the largest int its addition overflows.
  pub add_play_history_again :
      (row : sql.Row) (rows : List sql.Row) (d d' : sql.Db) (n i : ℤ) (affected : ℕ)
      → sql.execute_query f.0 find_statement
          (int history.user_id ∷ text history.song_id ∷ [])
          found_db
        ≡ (d, some (row ∷ rows))
      → sql.get_int "song_count" row ≡ some n
      → sql.get_int "id" row ≡ some i
      → sql.execute_update f.0 count_statement (int (n +ℤ pos 1) ∷ int i ∷ []) d
        ≡ (d', some affected)
      → (add_play_history history w).0 ≡ (if int_eq n int_max then fault else ok (ltb 0 affected))
  unfolding add_play count_or_insert count_play increment affects sql_call column recover
  add_play_history_again row rows d d' n i affected found count id updated =
      elim (Bool-cases (int_eq n int_max)) [
        | inl full ↦ rw (added, found, count, id, full) refl
        | inr less ↦ rw (added, found, count, id, less, updated) refl
      ]
