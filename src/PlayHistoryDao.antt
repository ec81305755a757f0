-- ===== src/PlayHistoryDao.antt =====
-- src/database/PlayHistoryDAO.{h,cpp}. Each method is a block under SqlConnGuard whose
-- SQLException is caught; other exceptions pass.
pub mod Connection
pub mod Counts
use hm_music_player_back_end.Prelude.{
  ℕ, ◌-◌, ◌^◌, ℤ, pos, ◌+ℤ◌, lt_int, int_eq, String, Bool, false, List, [], ◌∷◌, if◌then◌else◌,
}
use hm_music_player_back_end.Prelude.Effect.{std_exception, pure, raise, undefined, ◌>>=◌}
use hm_music_player_back_end.External.{External, Param, int, text}
use hm_music_player_back_end.Models.{Song, PlayHistory}
use hm_music_player_back_end.App.{App, column, sql_call, catch_sql, with_connection}
use hm_music_player_back_end.UserDao.{affects, nullable, text_or_null}
use hm_music_player_back_end.PlaylistDao.{build_all, first_count}

-- The largest int.
abbrev pub int_max : ℤ
int_max = pos (2 ^ 31 - 1)

module _ {e : External} where
  open e use {sql}

  -- `n + 1` on int, which is undefined at the largest.
  unfoldable pub increment : ℤ → App e ℤ
  increment n = if int_eq n int_max then undefined else pure (n +ℤ pos 1)

  -- The song was played before: its row is counted up. The statement is prepared and executed in
  -- one step, after the addition.
  unfoldable pub count_play : ℕ → sql.Row → App e Bool
  unfolding increment affects
  count_play guard row = do
    song_count ← column (sql.get_int "song_count" row)
    id ← column (sql.get_int "id" row)
    next ← increment song_count
    affects "UPDATE play_history SET song_count = ? WHERE id = ?" (int next ∷ int id ∷ []) guard

  unfoldable pub insert_play : PlayHistory → ℕ → App e Bool
  unfolding affects
  insert_play history guard =
      affects
        "INSERT INTO play_history (user_id, song_id, song_name, song_singer, song_pic, song_where, played_at) VALUES (?, ?, ?, ?, ?, ?)"
        (int history.user_id
          ∷ text history.song_id
          ∷ text history.song_name
          ∷ text history.song_singer
          ∷ text_or_null history.song_pic
          ∷ text history.song_where
          ∷ [])
        guard

  unfoldable pub count_or_insert : PlayHistory → ℕ → List sql.Row → App e Bool
  unfolding count_play insert_play
  count_or_insert history guard [] = insert_play history guard
  count_or_insert history guard (row ∷ rows) = count_play guard row

  unfoldable pub add_play : PlayHistory → ℕ → App e Bool
  unfolding count_or_insert
  add_play history guard = do
    check_result ← sql_call (
        sql.execute_query guard
          "SELECT id, song_count FROM play_history WHERE user_id = ? AND song_id = ?"
          (int history.user_id ∷ text history.song_id ∷ []))
    count_or_insert history guard check_result

  unfoldable pub add_play_history : PlayHistory → App e Bool
  unfolding add_play
  add_play_history history = catch_sql false (with_connection (add_play history))

  unfoldable pub build_history_from_result_set : sql.Row → App e PlayHistory
  unfolding nullable
  build_history_from_result_set row = do
    id ← column (sql.get_int "id" row)
    user_id ← column (sql.get_int "user_id" row)
    song_id ← column (sql.get_string "song_id" row)
    song_name ← column (sql.get_string "song_name" row)
    song_singer ← column (sql.get_string "song_singer" row)
    song_pic ← nullable "song_pic" row
    song_where ← column (sql.get_string "song_where" row)
    song_count ← column (sql.get_int "song_count" row)
    played_at ← column (sql.get_string "played_at" row)
    pure (record {
      id = id;
      user_id = user_id;
      song_id = song_id;
      song_name = song_name;
      song_singer = song_singer;
      song_pic = song_pic;
      song_where = song_where;
      played_at = played_at;
      song_count = song_count;
    })

  -- `unset` is what stands in the id of a Song that is not initialised.
  unfoldable pub build_song_of_history : ℤ → sql.Row → App e Song
  unfolding nullable
  build_song_of_history unset row = do
    song_id ← column (sql.get_string "song_id" row)
    name ← column (sql.get_string "song_name" row)
    singer ← column (sql.get_string "song_singer" row)
    pic ← nullable "song_pic" row
    source ← column (sql.get_string "song_where" row)
    pure (record {
      id = unset;
      song_id = song_id;
      name = name;
      singer = singer;
      pic = pic;
      source = source;
      added_at = "";
    })

  -- `reserve` with an int: a negative one is beyond the largest size of a vector.
  unfoldable pub reserve : ℤ → App e (Unit {0})
  reserve limit = if lt_int limit (pos 0) then raise (std_exception "vector::reserve") else pure tt

  unfoldable pub select_history : ℤ → ℤ → ℤ → ℕ → App e (List PlayHistory)
  unfolding reserve build_all build_history_from_result_set
  select_history user_id limit offset guard = do
    result ← sql_call (
        sql.execute_query guard
          "SELECT * FROM play_history WHERE user_id = ? ORDER BY played_at DESC LIMIT ? OFFSET ?"
          (int user_id ∷ int limit ∷ int offset ∷ []))
    _ ← reserve limit
    build_all build_history_from_result_set result

  unfoldable pub get_user_play_history : ℤ → ℤ → ℤ → App e (List PlayHistory)
  unfolding select_history
  get_user_play_history user_id limit offset =
      catch_sql [] (with_connection (select_history user_id limit offset))

  unfoldable pub clear_user_play_history : ℤ → App e Bool
  unfolding affects
  clear_user_play_history user_id =
      catch_sql false
        (with_connection (affects "DELETE FROM play_history WHERE user_id = ?" (int user_id ∷ [])))

  unfoldable pub delete_play_history : ℤ → ℤ → App e Bool
  unfolding affects
  delete_play_history history_id user_id = catch_sql false (
      with_connection (
        affects "DELETE FROM play_history WHERE id = ? AND user_id = ?"
          (int history_id ∷ int user_id ∷ [])))

  -- A block that reads a number.
  unfoldable pub count_rows : String → List Param → ℕ → App e ℤ
  unfolding first_count
  count_rows statement params guard = do
    result ← sql_call (sql.execute_query guard statement params)
    first_count result

  unfoldable pub get_user_total_play_count : ℤ → App e ℤ
  unfolding count_rows
  get_user_total_play_count user_id = catch_sql (pos 0) (
      with_connection (
        count_rows "SELECT COUNT(*) AS count FROM play_history WHERE user_id = ?"
          (int user_id ∷ [])))

  unfoldable pub get_user_recent_play_count : ℤ → ℤ → App e ℤ
  unfolding count_rows
  get_user_recent_play_count user_id days = catch_sql (pos 0) (
      with_connection (
        count_rows
          "SELECT COUNT(*) AS count FROM play_history WHERE user_id = ? AND played_at >= NOW() - INTERVAL ? DAY"
          (int user_id ∷ int days ∷ [])))

  -- A block that makes a list of the rows.
  unfoldable pub select_rows :
      {A : Type 0} → (sql.Row → App e A) → String → ℤ → ℤ → ℕ → App e (List A)
  unfolding build_all
  select_rows build statement user_id limit guard = do
    result ← sql_call (sql.execute_query guard statement (int user_id ∷ int limit ∷ []))
    build_all build result

  unfoldable pub build_artist : sql.Row → App e (String × ℤ)
  build_artist row = do
    artist ← column (sql.get_string "song_singer" row)
    play_count ← column (sql.get_int "total_plays" row)
    pure (artist, play_count)

  unfoldable pub get_user_top_artists : ℤ → ℤ → App e (List (String × ℤ))
  unfolding select_rows build_artist
  get_user_top_artists user_id limit = catch_sql [] (
      with_connection (
        select_rows build_artist
          "SELECT song_singer, SUM(song_count) AS total_plays FROM play_history WHERE user_id = ? GROUP BY song_singer ORDER BY total_plays DESC LIMIT ?"
          user_id limit))

  unfoldable pub get_user_top_songs : ℤ → ℤ → ℤ → App e (List Song)
  unfolding select_rows build_song_of_history
  get_user_top_songs unset user_id limit = catch_sql [] (
      with_connection (
        select_rows (build_song_of_history unset)
          "SELECT * FROM play_history WHERE user_id = ? ORDER BY song_count DESC LIMIT ?" user_id
          limit))

  unfoldable pub build_played : sql.Row → App e (PlayHistory × ℤ)
  unfolding build_history_from_result_set
  build_played row = do
    history ← build_history_from_result_set row
    play_count ← column (sql.get_int "song_count" row)
    pure (history, play_count)

  unfoldable pub get_most_played_songs : ℤ → ℤ → App e (List (PlayHistory × ℤ))
  unfolding select_rows build_played
  get_most_played_songs user_id limit = catch_sql [] (
      with_connection (
        select_rows build_played
          "SELECT * FROM play_history WHERE user_id = ? ORDER BY song_count DESC LIMIT ?" user_id
          limit))
