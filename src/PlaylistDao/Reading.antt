-- ===== src/PlaylistDao/Reading.antt =====
-- What PlaylistDAO makes of the rows of a result set.
use mathlib.Core.Option
use hm_music_player_back_end.Prelude.{
  pos, lt_int, ℕ, String, ◌≡◌, refl, ◌⊎◌, inl, inr, Bool, true, false, ltb, some, List, [], ◌∷◌,
  map, arith,
}
use hm_music_player_back_end.Prelude.Effect.{ok}
use hm_music_player_back_end.External.{External, Sql}
use hm_music_player_back_end.Models.{Song, Playlist}
use hm_music_player_back_end.App.{World, column}
use hm_music_player_back_end.UserDao.Accounts.{first}
use hm_music_player_back_end.PlaylistDao.{
  or_empty_text, build_playlist_from_result_set, build_song_from_result_set, build_all,
  first_playlist, is_there,
}
use hm_music_player_back_end.PlaylistDao.Table.{PlaylistTable}

module _ {sql : Sql} (t : PlaylistTable sql) where
  abbrev pub song_of : t.Stored → Song
  song_of s = (t.entry s).song

  abbrev pub playlist_of : t.StoredList → Playlist
  playlist_of s = record {
    id = (t.listed s).id;
    user_id = (t.listed s).user_id;
    name = (t.listed s).name;
    cover = (t.listed s).cover;
    create_at = t.create_at s;
    update_at = t.update_at s;
  }

module _ {e : External} (t : PlaylistTable e.sql) where
  open t use {Stored, row, StoredList, list_row}

  or_empty_text_lem :
      (name shown : String) (r : e.sql.Row) (w : World e)
      → ((e.sql.is_null name r ≡ some true) × (shown ≡ ""))
        ⊎ ((e.sql.is_null name r ≡ some false) × (e.sql.get_string name r ≡ some shown))
      → or_empty_text name r w ≡ (ok shown, w)
  unfolding or_empty_text column
  or_empty_text_lem name shown r w (inl (n, g)) = rw (n, g) refl
  or_empty_text_lem name shown r w (inr (n, g)) = rw (n, g) refl

  song_read :
      (s : Stored) (w : World e) → build_song_from_result_set (row s) w ≡ (ok (song_of t s), w)
  unfolding build_song_from_result_set column
  song_read s w =
      rw
        (
          t.row_id s,
          t.row_song_id s,
          t.row_name s,
          t.row_singer s,
          t.row_source s,
          or_empty_text_lem "song_pic" (song_of t s).pic (row s) w (t.row_pic s),
          t.row_added_at s,
        )
        refl

  pub songs_read :
      (ss : List Stored) (w : World e)
      → build_all build_song_from_result_set (map row ss) w ≡ (ok (map (song_of t) ss), w)
  unfolding build_all
  songs_read [] w = refl
  songs_read (s ∷ ss) w = rw (song_read s w, songs_read ss w) refl

  playlist_read :
      (s : StoredList) (w : World e)
      → build_playlist_from_result_set (list_row s) w ≡ (ok (playlist_of t s), w)
  unfolding build_playlist_from_result_set column
  playlist_read s w =
      rw
        (
          t.list_id s,
          t.list_name s,
          t.list_user_id s,
          or_empty_text_lem "cover" (playlist_of t s).cover (list_row s) w (t.list_cover s),
          t.list_create_at s,
          t.list_update_at s,
        )
        refl

  pub playlists_read :
      (ss : List StoredList) (w : World e)
      → build_all build_playlist_from_result_set (map list_row ss) w
        ≡ (ok (map (playlist_of t) ss), w)
  unfolding build_all
  playlists_read [] w = refl
  playlists_read (s ∷ ss) w = rw (playlist_read s w, playlists_read ss w) refl

  pub first_playlist_read :
      (ss : List StoredList) (w : World e)
      → first_playlist (map list_row ss) w ≡ (ok (Option.map (playlist_of t) (first ss)), w)
  unfolding first_playlist
  first_playlist_read [] w = refl
  first_playlist_read (s ∷ ss) w = rw (playlist_read s w) refl

module _ {e : External} where
  -- The test whether a count is above 0.
  pub is_there-count :
      (r : e.sql.Row) (n : ℕ) (b : Bool) (u : World e)
      → e.sql.get_int "count" r ≡ some (pos n)
      → ltb 0 n ≡ b
      → is_there (r ∷ []) u ≡ (ok b, u)
  unfolding is_there column
  is_there-count r n b u number tested =
      let same : lt_int (pos 0) (pos n) ≡ b = ground (arith, tested) in rw (number, same) refl
