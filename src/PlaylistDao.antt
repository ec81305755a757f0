-- ===== src/PlaylistDao.antt =====
-- src/database/PlaylistDAO.{h,cpp}. Each method is a block under SqlConnGuard whose SQLException
-- is caught.
pub mod Connection
pub mod Library
pub mod Table
pub mod Spec
pub mod Reading
pub mod Methods
pub mod Refinement
use hm_music_player_back_end.Prelude.{
  ℕ, ℤ, pos, lt_int, String, Bool, true, false, not, Option, none, some, List, [], ◌∷◌,
  if◌then◌else◌,
}
use hm_music_player_back_end.Prelude.Effect.{pure, ◌>>=◌, ◌>>◌}
use hm_music_player_back_end.External.{External, Param, int, text}
use hm_music_player_back_end.Models.{Playlist, Song}
use hm_music_player_back_end.App.{World, App, column, sql_call, catch_sql, with_connection}
use hm_music_player_back_end.UserDao.{affects, text_or_null}

module _ {e : External} where
  open e use {sql}

  -- `result->isNull(name) ? "" : result->getString(name)`
  pub or_empty_text : String → sql.Row → App e String
  or_empty_text name row = do
    is_null ← column (sql.is_null name row)
    if is_null then pure "" else column (sql.get_string name row)

  pub build_playlist_from_result_set : sql.Row → App e Playlist
  unfolding or_empty_text
  build_playlist_from_result_set row = do
    id ← column (sql.get_int "id" row)
    name ← column (sql.get_string "name" row)
    user_id ← column (sql.get_int "user_id" row)
    cover ← or_empty_text "cover" row
    create_at ← column (sql.get_string "create_at" row)
    update_at ← column (sql.get_string "update_at" row)
    pure (record {
      id = id;
      user_id = user_id;
      name = name;
      cover = cover;
      create_at = create_at;
      update_at = update_at;
    })

  pub build_song_from_result_set : sql.Row → App e Song
  unfolding or_empty_text
  build_song_from_result_set row = do
    id ← column (sql.get_int "id" row)
    song_id ← column (sql.get_string "song_id" row)
    name ← column (sql.get_string "song_name" row)
    singer ← column (sql.get_string "song_singer" row)
    source ← column (sql.get_string "song_where" row)
    pic ← or_empty_text "song_pic" row
    added_at ← column (sql.get_string "added_at" row)
    pure (record {
      id = id;
      song_id = song_id;
      name = name;
      singer = singer;
      pic = pic;
      source = source;
      added_at = added_at;
    })

  -- `while (result->next()) { rows.emplace_back(build(result)); }`
  unfoldable pub build_all : {A : Type 0} → (sql.Row → App e A) → List sql.Row → App e (List A)
  build_all build [] = pure []
  build_all build (row ∷ rows) = do a ← build row; rest ← build_all build rows; pure (a ∷ rest)

  pub created_id : Playlist → List sql.Row → App e (Bool × Playlist)
  created_id playlist [] = pure (false, playlist)
  created_id playlist (row ∷ rows) = do
    id ← column (sql.get_int "id" row)
    pure (true, record playlist { id = id })

  -- The id is asked for through the prepared statement.
  pub insert_playlist : Playlist → ℕ → App e (Bool × Playlist)
  unfolding created_id
  insert_playlist playlist guard = do
    _ ← sql_call (
        sql.execute_update guard "INSERT INTO playlists (name, user_id, cover) VALUES (?, ?, ?)"
          (text playlist.name ∷ int playlist.user_id ∷ text_or_null playlist.cover ∷ []))
    result ← sql_call (sql.prepared_execute_query guard "SELECT LAST_INSERT_ID() AS id")
    created_id playlist result

  unfoldable pub create_playlist : Playlist → App e (Bool × Playlist)
  unfolding insert_playlist
  create_playlist playlist =
      catch_sql (false, playlist) (with_connection (insert_playlist playlist))

  pub first_playlist : List sql.Row → App e (Option Playlist)
  unfolding build_playlist_from_result_set
  first_playlist [] = pure none
  first_playlist (row ∷ rows) = do
    playlist ← build_playlist_from_result_set row
    pure (some playlist)

  pub select_playlist : ℤ → ℕ → App e (Option Playlist)
  unfolding first_playlist
  select_playlist playlist_id guard = do
    result ←
        sql_call
          (sql.execute_query guard "SELECT * FROM playlists WHERE id = ?" (int playlist_id ∷ []))
    first_playlist result

  unfoldable pub get_playlist_by_id : ℤ → App e (Option Playlist)
  unfolding select_playlist
  get_playlist_by_id playlist_id = catch_sql none (with_connection (select_playlist playlist_id))

  -- The blocks of the two searches for lists, without `rowsCount`, whose number only reserves room.
  pub select_all : {A : Type 0} → (sql.Row → App e A) → String → ℤ → ℕ → App e (List A)
  unfolding build_all
  select_all build statement key guard = do
    result ← sql_call (sql.execute_query guard statement (int key ∷ []))
    build_all build result

  unfoldable pub get_playlists_by_user_id : ℤ → App e (List Playlist)
  unfolding select_all build_playlist_from_result_set
  get_playlists_by_user_id user_id = catch_sql [] (
      with_connection (
        select_all build_playlist_from_result_set "SELECT * FROM playlists WHERE user_id = ?"
          user_id))

  unfoldable pub update_playlist : Playlist → App e Bool
  unfolding affects
  update_playlist playlist = catch_sql false (
      with_connection (
        affects "UPDATE playlists SET name = ?, cover = ? WHERE id = ?"
          (text playlist.name ∷ text_or_null playlist.cover ∷ int playlist.id ∷ [])))

  unfoldable pub delete_playlist : ℤ → App e Bool
  unfolding affects
  delete_playlist id =
      catch_sql false (with_connection (affects "DELETE FROM playlists WHERE id = ?" (int id ∷ [])))

  -- `result->next() && result->getInt("count") > 0`
  pub is_there : List sql.Row → App e Bool
  is_there [] = pure false
  is_there (row ∷ rows) = do count ← column (sql.get_int "count" row); pure (lt_int (pos 0) count)

  pub add_song : ℤ → Song → ℕ → App e Bool
  unfolding is_there affects
  add_song playlist_id song guard = do
    result ← sql_call (
        sql.execute_query guard
          "SELECT COUNT(*) as count FROM playlist_songs WHERE playlist_id = ? AND song_id = ? AND song_where = ?"
          (int playlist_id ∷ text song.song_id ∷ text song.source ∷ []))
    there ← is_there result
    if there
        then pure true
        else affects
            "INSERT INTO playlist_songs (playlist_id, song_id, song_name, song_singer, song_pic, song_where) VALUES (?, ?, ?, ?, ?, ?)"
            (int playlist_id
              ∷ text song.song_id
              ∷ text song.name
              ∷ text song.singer
              ∷ text_or_null song.pic
              ∷ text song.source
              ∷ [])
            guard

  unfoldable pub add_song_to_playlist : ℤ → Song → App e Bool
  unfolding add_song
  add_song_to_playlist playlist_id song =
      catch_sql false (with_connection (add_song playlist_id song))

  unfoldable pub remove_song_from_playlist : ℤ → String → String → App e Bool
  unfolding affects
  remove_song_from_playlist playlist_id song_id song_source = catch_sql false (
      with_connection (
        affects "DELETE FROM playlist_songs WHERE playlist_id = ? AND song_id = ? && song_where = ?"
          (int playlist_id ∷ text song_id ∷ text song_source ∷ [])))

  unfoldable pub get_songs_in_playlist : ℤ → App e (List Song)
  unfolding select_all build_song_from_result_set
  get_songs_in_playlist playlist_id = catch_sql [] (
      with_connection (
        select_all build_song_from_result_set "SELECT * FROM playlist_songs WHERE playlist_id = ?"
          playlist_id))

  unfoldable pub first_count : List sql.Row → App e ℤ
  first_count [] = pure (pos 0)
  first_count (row ∷ rows) = column (sql.get_int "count" row)

  pub count_songs : ℤ → ℕ → App e ℤ
  unfolding first_count
  count_songs playlist_id guard = do
    result ← sql_call (
        sql.execute_query guard "SELECT COUNT(*) as count FROM playlist_songs WHERE playlist_id = ?"
          (int playlist_id ∷ []))
    first_count result

  unfoldable pub count_songs_in_playlist : ℤ → App e ℤ
  unfolding count_songs
  count_songs_in_playlist playlist_id =
      catch_sql (pos 0) (with_connection (count_songs playlist_id))
