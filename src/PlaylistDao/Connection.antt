-- ===== src/PlaylistDao/Connection.antt =====
-- What the methods of PlaylistDAO do to the pool, and what becomes of a new playlist.
use mathlib.Core.List.{Perm}
use hm_music_player_back_end.Prelude.{
  ◌≡◌, refl, ℕ, ℤ, String, Bool, false, Option, none, List, [], ◌∷◌, Option-cases, inl, inr,
}
use hm_music_player_back_end.Prelude.Effect.{ok, throw, sql_exception}
use hm_music_player_back_end.External.{External, int, text}
use hm_music_player_back_end.Models.{Playlist, Song}
use hm_music_player_back_end.Pool.Laws.{owned}
use hm_music_player_back_end.App.{World, App, catch_sql, recover, sql_call}
use hm_music_player_back_end.App.Steady.{HasFront}
use hm_music_player_back_end.App.Rules.{Keeps, keeps_rules, Keeps-bind, Keeps-pure}
use hm_music_player_back_end.App.Connection.{
  IsGuarded, rotated, inside, with_connection-Keeps, catch_sql-IsGuarded,
}
use hm_music_player_back_end.UserDao.{text_or_null}
use hm_music_player_back_end.UserDao.Connection.{affects-Keeps}
use hm_music_player_back_end.PlaylistDao.{
  or_empty_text, build_playlist_from_result_set, build_song_from_result_set, build_all, created_id,
  insert_playlist, create_playlist, first_playlist, select_playlist, get_playlist_by_id, select_all,
  get_playlists_by_user_id, update_playlist, delete_playlist, is_there, add_song,
  add_song_to_playlist, remove_song_from_playlist, get_songs_in_playlist, first_count, count_songs,
  count_songs_in_playlist,
}

-- The public methods with their arguments, and the types of their results.
pub data PlaylistCall : Type 0 where
  creates updates : Playlist → PlaylistCall
  finds_id finds_user deletes lists counts : ℤ → PlaylistCall
  adds : ℤ → Song → PlaylistCall
  removes : ℤ → String → String → PlaylistCall

abbrev pub PlaylistReply : PlaylistCall → Type 0
PlaylistReply (creates playlist) = Bool × Playlist
PlaylistReply (finds_id id) = Option Playlist
PlaylistReply (finds_user id) = List Playlist
PlaylistReply (lists id) = List Song
PlaylistReply (counts id) = ℤ
PlaylistReply c = Bool

module _ {e : External} where
  unfoldable pub playlist_call : (c : PlaylistCall) → App e (PlaylistReply c)
  playlist_call (creates playlist) = create_playlist playlist
  playlist_call (updates playlist) = update_playlist playlist
  playlist_call (finds_id id) = get_playlist_by_id id
  playlist_call (finds_user id) = get_playlists_by_user_id id
  playlist_call (deletes id) = delete_playlist id
  playlist_call (lists id) = get_songs_in_playlist id
  playlist_call (counts id) = count_songs_in_playlist id
  playlist_call (adds id song) = add_song_to_playlist id song
  playlist_call (removes id song_id source) = remove_song_from_playlist id song_id source

  or_empty_text-Keeps : (name : String) (row : e.sql.Row) → Keeps (or_empty_text {e = e} name row)
  unfolding or_empty_text
  or_empty_text-Keeps name row = search keeps_rules

  pub build_playlist-Keeps : (row : e.sql.Row) → Keeps (build_playlist_from_result_set {e = e} row)
  unfolding build_playlist_from_result_set
  build_playlist-Keeps row = search (keeps_rules, or_empty_text-Keeps) depth 30

  pub build_song-Keeps : (row : e.sql.Row) → Keeps (build_song_from_result_set {e = e} row)
  unfolding build_song_from_result_set
  build_song-Keeps row = search (keeps_rules, or_empty_text-Keeps) depth 30

  pub build_all-Keeps :
      {A : Type 0} (build : e.sql.Row → App e A)
      → ((row : e.sql.Row) → Keeps (build row))
      → (rows : List e.sql.Row) → Keeps (build_all build rows)
  unfolding build_all
  build_all-Keeps build k [] = search keeps_rules
  build_all-Keeps build k (row ∷ rows) = Keeps-bind (build row) _ (k row) (λ a.
      Keeps-bind (build_all build rows) _ (build_all-Keeps build k rows) (λ rest. Keeps-pure _))

  pub select_all-Keeps :
      {A : Type 0} (build : e.sql.Row → App e A)
      → ((row : e.sql.Row) → Keeps (build row))
      → (statement : String) (key : ℤ) (c : ℕ) → Keeps (select_all build statement key c)
  unfolding select_all
  select_all-Keeps build k statement key c = search (keeps_rules, build_all-Keeps build k)

  created_id-Keeps :
      (playlist : Playlist) (rows : List e.sql.Row) → Keeps (created_id {e = e} playlist rows)
  unfolding created_id
  created_id-Keeps playlist [] = search keeps_rules
  created_id-Keeps playlist (row ∷ rows) = search keeps_rules

  pub insert_playlist-Keeps :
      (playlist : Playlist) (c : ℕ) → Keeps (insert_playlist {e = e} playlist c)
  unfolding insert_playlist
  insert_playlist-Keeps playlist c = search (keeps_rules, created_id-Keeps)

  first_playlist-Keeps : (rows : List e.sql.Row) → Keeps (first_playlist {e = e} rows)
  unfolding first_playlist
  first_playlist-Keeps [] = search keeps_rules
  first_playlist-Keeps (row ∷ rows) = search (keeps_rules, build_playlist-Keeps)

  pub select_playlist-Keeps : (id : ℤ) (c : ℕ) → Keeps (select_playlist {e = e} id c)
  unfolding select_playlist
  select_playlist-Keeps id c = search (keeps_rules, first_playlist-Keeps)

  is_there-Keeps : (rows : List e.sql.Row) → Keeps (is_there {e = e} rows)
  unfolding is_there
  is_there-Keeps [] = search keeps_rules
  is_there-Keeps (row ∷ rows) = search keeps_rules

  pub add_song-Keeps : (id : ℤ) (song : Song) (c : ℕ) → Keeps (add_song {e = e} id song c)
  unfolding add_song
  add_song-Keeps id song c = search (keeps_rules, is_there-Keeps, affects-Keeps) depth 8

  pub first_count-Keeps : (rows : List e.sql.Row) → Keeps (first_count {e = e} rows)
  unfolding first_count
  first_count-Keeps [] = search keeps_rules
  first_count-Keeps (row ∷ rows) = search keeps_rules

  pub count_songs-Keeps : (id : ℤ) (c : ℕ) → Keeps (count_songs {e = e} id c)
  unfolding count_songs
  count_songs-Keeps id c = search (keeps_rules, first_count-Keeps)

  playlist_call-IsGuarded : (c : PlaylistCall) → IsGuarded (playlist_call c)
  unfolding playlist_call create_playlist get_playlist_by_id get_playlists_by_user_id
      update_playlist delete_playlist add_song_to_playlist remove_song_from_playlist
      get_songs_in_playlist count_songs_in_playlist
  playlist_call-IsGuarded (creates playlist) =
      catch_sql-IsGuarded _ _ (insert_playlist-Keeps playlist)
  playlist_call-IsGuarded (updates playlist) = catch_sql-IsGuarded _ _ (affects-Keeps _ _)
  playlist_call-IsGuarded (finds_id id) = catch_sql-IsGuarded _ _ (select_playlist-Keeps id)
  playlist_call-IsGuarded (finds_user id) =
      catch_sql-IsGuarded _ _ (select_all-Keeps _ build_playlist-Keeps _ id)
  playlist_call-IsGuarded (deletes id) = catch_sql-IsGuarded _ _ (affects-Keeps _ _)
  playlist_call-IsGuarded (lists id) =
      catch_sql-IsGuarded _ _ (select_all-Keeps _ build_song-Keeps _ id)
  playlist_call-IsGuarded (counts id) = catch_sql-IsGuarded _ _ (count_songs-Keeps id)
  playlist_call-IsGuarded (adds id song) = catch_sql-IsGuarded _ _ (add_song-Keeps id song)
  playlist_call-IsGuarded (removes id song_id source) = catch_sql-IsGuarded _ _ (affects-Keeps _ _)

  -- With a connection at hand each method of PlaylistDAO returns, whatever the database server
  -- answers; it changes nothing but the database, and its connection goes from the front of the
  -- pool to the back.
  pub playlist_call_returns :
      (c : PlaylistCall) (w : World e) (k : ℕ) (ks : List ℕ)
      → w.pool.connections ≡ k ∷ ks
      → ((r : PlaylistReply c) × ((playlist_call c w).0 ≡ ok r))
        × ((playlist_call c w).1 ≡ rotated k ks w (playlist_call c w).1.db)
  playlist_call_returns c = (playlist_call-IsGuarded c).returns

  -- On every path of each method of PlaylistDAO, the connections in the pool and those that other
  -- threads are going to give back are the same before and after, but for their order.
  pub playlist_call_conserves :
      (c : PlaylistCall) (w : World e) → Perm (owned (playlist_call c w).1.pool) (owned w.pool)
  playlist_call_conserves c = (playlist_call-IsGuarded c).conserves

  insert_playlist_fails :
      (playlist : Playlist) (c : ℕ) (v : World e)
      → ((s : String) (d : e.sql.Db) → (e.sql.prepared_execute_query c s d).1 ≡ none)
      → (insert_playlist playlist c v).0 ≡ throw sql_exception
  unfolding insert_playlist sql_call
  insert_playlist_fails playlist c v h =
      elim (Option-cases
        (e.sql.execute_update c "INSERT INTO playlists (name, user_id, cover) VALUES (?, ?, ?)"
          (text playlist.name ∷ int playlist.user_id ∷ text_or_null playlist.cover ∷ []) v.db).1) [
            | inl n ↦ rw (n) refl
            | inr (a, s) ↦ rw (s, h _ _) refl
          ]

  -- Where the connector refuses executeQuery(sql) on a PreparedStatement, and with a connection at
  -- hand, createPlaylist gives false and no id, whatever became of the INSERT.
  pub create_playlist_fails :
      (playlist : Playlist) (w : World e) (f : HasFront w.pool.connections)
      → ((c : ℕ) (s : String) (d : e.sql.Db) → (e.sql.prepared_execute_query c s d).1 ≡ none)
      → (create_playlist playlist w).0 ≡ ok (false, playlist)
  unfolding create_playlist catch_sql recover
  create_playlist_fails playlist w f h =
      let run =
        (with_connection-Keeps (insert_playlist playlist) (insert_playlist-Keeps playlist) w f.0 f.1
          f.2).0 in
      rw (run, insert_playlist_fails playlist f.0 (inside f.0 f.1 w) (h f.0)) refl
