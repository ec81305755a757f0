-- ===== src/PlayHistoryDao/Connection.antt =====
-- What the methods of PlayHistoryDAO do to the pool.
use mathlib.Core.List.{Perm}
use hm_music_player_back_end.Prelude.{ℕ, ℤ, String, Bool, List, [], ◌∷◌}
use hm_music_player_back_end.External.{External, Param}
use hm_music_player_back_end.Models.{Song, PlayHistory}
use hm_music_player_back_end.Pool.Laws.{owned}
use hm_music_player_back_end.App.{World, App, catch_sql}
use hm_music_player_back_end.App.Rules.{Keeps, keeps_rules}
use hm_music_player_back_end.App.Frame.{IsFramed, IsFramed-Keeps, frame_rules}
use hm_music_player_back_end.App.Connection.{with_connection-IsFramed, with_connection-perm}
use hm_music_player_back_end.UserDao.Connection.{affects-Keeps, nullable-Keeps}
use hm_music_player_back_end.PlaylistDao.Connection.{build_all-Keeps, first_count-Keeps}
use hm_music_player_back_end.PlayHistoryDao.{
  increment, count_play, insert_play, count_or_insert, add_play, add_play_history,
  build_history_from_result_set, build_song_of_history, reserve, select_history,
  get_user_play_history, clear_user_play_history, delete_play_history, count_rows,
  get_user_total_play_count, get_user_recent_play_count, select_rows, build_artist,
  get_user_top_artists, get_user_top_songs, build_played, get_most_played_songs,
}

-- The public methods with their arguments, and the types of their results.
pub data HistoryCall : Type 0 where
  adds : PlayHistory → HistoryCall
  lists : ℤ → ℤ → ℤ → HistoryCall
  clears counts : ℤ → HistoryCall
  deletes counts_recent top_artists most_played : ℤ → ℤ → HistoryCall
  top_songs : ℤ → ℤ → ℤ → HistoryCall

abbrev pub HistoryReply : HistoryCall → Type 0
HistoryReply (lists user_id limit offset) = List PlayHistory
HistoryReply (counts user_id) = ℤ
HistoryReply (counts_recent user_id days) = ℤ
HistoryReply (top_artists user_id limit) = List (String × ℤ)
HistoryReply (most_played user_id limit) = List (PlayHistory × ℤ)
HistoryReply (top_songs unset user_id limit) = List Song
HistoryReply c = Bool

module _ {e : External} where
  pub history_call : (c : HistoryCall) → App e (HistoryReply c)
  history_call (adds history) = add_play_history history
  history_call (lists user_id limit offset) = get_user_play_history user_id limit offset
  history_call (clears user_id) = clear_user_play_history user_id
  history_call (counts user_id) = get_user_total_play_count user_id
  history_call (deletes history_id user_id) = delete_play_history history_id user_id
  history_call (counts_recent user_id days) = get_user_recent_play_count user_id days
  history_call (top_artists user_id limit) = get_user_top_artists user_id limit
  history_call (most_played user_id limit) = get_most_played_songs user_id limit
  history_call (top_songs unset user_id limit) = get_user_top_songs unset user_id limit

  build_history-Keeps : (row : e.sql.Row) → Keeps (build_history_from_result_set {e = e} row)
  unfolding build_history_from_result_set
  build_history-Keeps row = search (keeps_rules, nullable-Keeps) depth 40

  build_song_of_history-Keeps :
      (unset : ℤ) (row : e.sql.Row) → Keeps (build_song_of_history {e = e} unset row)
  unfolding build_song_of_history
  build_song_of_history-Keeps unset row = search (keeps_rules, nullable-Keeps) depth 30

  build_artist-Keeps : (row : e.sql.Row) → Keeps (build_artist {e = e} row)
  unfolding build_artist
  build_artist-Keeps row = search keeps_rules

  build_played-Keeps : (row : e.sql.Row) → Keeps (build_played {e = e} row)
  unfolding build_played
  build_played-Keeps row = search (keeps_rules, build_history-Keeps)

  select_rows-Keeps :
      {A : Type 0} (build : e.sql.Row → App e A)
      → ((row : e.sql.Row) → Keeps (build row))
      → (statement : String) (user_id limit : ℤ) (c : ℕ)
      → Keeps (select_rows build statement user_id limit c)
  unfolding select_rows
  select_rows-Keeps build k statement user_id limit c =
      search (keeps_rules, build_all-Keeps build k)

  count_rows-Keeps :
      (statement : String) (params : List Param) (c : ℕ)
      → Keeps (count_rows {e = e} statement params c)
  unfolding count_rows
  count_rows-Keeps statement params c = search (keeps_rules, first_count-Keeps)

  insert_play-Keeps : (history : PlayHistory) (c : ℕ) → Keeps (insert_play {e = e} history c)
  unfolding insert_play
  insert_play-Keeps history c = affects-Keeps _ _ c

  count_play-IsFramed : (c : ℕ) (row : e.sql.Row) → IsFramed (count_play {e = e} c row)
  unfolding count_play increment
  count_play-IsFramed c row = search (frame_rules, IsFramed-Keeps _ (affects-Keeps _ _ c)) depth 20

  count_or_insert-IsFramed :
      (history : PlayHistory) (c : ℕ) (rows : List e.sql.Row)
      → IsFramed (count_or_insert {e = e} history c rows)
  unfolding count_or_insert
  count_or_insert-IsFramed history c [] = IsFramed-Keeps _ (insert_play-Keeps history c)
  count_or_insert-IsFramed history c (row ∷ rows) = count_play-IsFramed c row

  add_play-IsFramed : (history : PlayHistory) (c : ℕ) → IsFramed (add_play {e = e} history c)
  unfolding add_play
  add_play-IsFramed history c = search (frame_rules, count_or_insert-IsFramed)

  select_history-IsFramed :
      (user_id limit offset : ℤ) (c : ℕ) → IsFramed (select_history {e = e} user_id limit offset c)
  unfolding select_history reserve
  select_history-IsFramed user_id limit offset c =
      search (frame_rules, IsFramed-Keeps _ (build_all-Keeps _ build_history-Keeps _)) depth 20

  -- On every path of each method of PlayHistoryDAO, exceptions and overflows included, the
  -- connections in the pool and those that other threads are going to give back are the same
  -- before and after, but for their order.
  pub history_call_conserves :
      (c : HistoryCall) (w : World e) → Perm (owned (history_call c w).1.pool) (owned w.pool)
  unfolding history_call add_play_history get_user_play_history clear_user_play_history
      delete_play_history get_user_total_play_count get_user_recent_play_count get_user_top_artists
      get_user_top_songs get_most_played_songs catch_sql
  history_call_conserves (adds history) = with_connection-IsFramed _ (add_play-IsFramed history)
  history_call_conserves (lists user_id limit offset) =
      with_connection-IsFramed _ (select_history-IsFramed user_id limit offset)
  history_call_conserves (clears user_id) = with_connection-perm _ (affects-Keeps _ _)
  history_call_conserves (counts user_id) = with_connection-perm _ (count_rows-Keeps _ _)
  history_call_conserves (deletes history_id user_id) = with_connection-perm _ (affects-Keeps _ _)
  history_call_conserves (counts_recent user_id days) =
      with_connection-perm _ (count_rows-Keeps _ _)
  history_call_conserves (top_artists user_id limit) =
      with_connection-perm _ (select_rows-Keeps _ build_artist-Keeps _ user_id limit)
  history_call_conserves (most_played user_id limit) =
      with_connection-perm _ (select_rows-Keeps _ build_played-Keeps _ user_id limit)
  history_call_conserves (top_songs unset user_id limit) =
      with_connection-perm _
        (select_rows-Keeps _ (build_song_of_history-Keeps unset) _ user_id limit)
