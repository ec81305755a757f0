-- ===== src/PlaylistDao/Table.antt =====
-- What the MySQL manual says of the statements of PlaylistDAO on the tables `playlists` and
-- `playlist_songs` of sql/MusicPlayer.sql, while the server answers, and of `executeQuery(sql)` of
-- a PreparedStatement: the hypotheses of the theorem on playlists.
use mathlib.Core.List.{Perm}
use hm_music_player_back_end.Prelude.{
  ℕ, ◌^◌, ◌<◌, ℤ, pos, int_eq, String, ◌≡◌, ◌⊎◌, Bool, true, false, not, ltb, none, some, List, [],
  ◌∷◌, ◌++◌, map, length,
}
use hm_music_player_back_end.External.{Sql, int, text}
use hm_music_player_back_end.Models.{Song, Playlist}
use hm_music_player_back_end.UserDao.{text_or_null}
use hm_music_player_back_end.PlaylistDao.Library.{
  Entry, Listed, Library, within, has_id, matches, renamed, renames, song_fits, playlist_fits,
}
use hm_music_player_back_end.UserDao.Table.{keep, any}

pub record PlaylistTable (sql : Sql) : Type 1 where
  -- What the server stores of the rows, and how a result set shows them.
  pub Stored : Type 0
  pub row : Stored → sql.Row
  pub entry : Stored → Entry
  pub StoredList : Type 0
  pub list_row : StoredList → sql.Row
  pub listed : StoredList → Listed
  pub create_at : StoredList → String
  pub update_at : StoredList → String
  pub library : sql.Db → Library
  pub same : String → String → Bool
  pub fits : ℕ → String → Bool
  pub row_id : (s : Stored) → sql.get_int "id" (row s) ≡ some (entry s).song.id
  pub row_song_id : (s : Stored) → sql.get_string "song_id" (row s) ≡ some (entry s).song.song_id
  pub row_name : (s : Stored) → sql.get_string "song_name" (row s) ≡ some (entry s).song.name
  pub row_singer : (s : Stored) → sql.get_string "song_singer" (row s) ≡ some (entry s).song.singer
  pub row_source : (s : Stored) → sql.get_string "song_where" (row s) ≡ some (entry s).song.source
  pub row_added_at : (s : Stored) → sql.get_string "added_at" (row s) ≡ some (entry s).song.added_at
  pub row_pic :
      (s : Stored)
      → ((sql.is_null "song_pic" (row s) ≡ some true) × ((entry s).song.pic ≡ ""))
        ⊎ ((sql.is_null "song_pic" (row s) ≡ some false)
            × (sql.get_string "song_pic" (row s) ≡ some (entry s).song.pic))
  pub list_id : (s : StoredList) → sql.get_int "id" (list_row s) ≡ some (listed s).id
  pub list_user_id : (s : StoredList) → sql.get_int "user_id" (list_row s) ≡ some (listed s).user_id
  pub list_name : (s : StoredList) → sql.get_string "name" (list_row s) ≡ some (listed s).name
  pub list_create_at :
      (s : StoredList) → sql.get_string "create_at" (list_row s) ≡ some (create_at s)
  pub list_update_at :
      (s : StoredList) → sql.get_string "update_at" (list_row s) ≡ some (update_at s)
  pub list_cover :
      (s : StoredList)
      → ((sql.is_null "cover" (list_row s) ≡ some true) × ((listed s).cover ≡ ""))
        ⊎ ((sql.is_null "cover" (list_row s) ≡ some false)
            × (sql.get_string "cover" (list_row s) ≡ some (listed s).cover))
  -- A connection of the pool is open.
  pub ping :
      (c : ℕ) (db : sql.Db)
      → (db' : sql.Db) × (sql.is_valid c db ≡ (db', some true)) × (library db' ≡ library db)
  -- The connector throws MethodNotImplementedException, which is an SQLException.
  pub prepared_refused :
      (c : ℕ) (statement : String) (db : sql.Db)
      → (db' : sql.Db) × (sql.prepared_execute_query c statement db ≡ (db', none))
        × (library db' ≡ library db)
  -- `id` is AUTO_INCREMENT, and `user_id` REFERENCES `users`.
  pub insert_list :
      (c : ℕ) (playlist : Playlist) (db : sql.Db)
      → playlist_fits fits playlist ≡ true
      → any (int_eq playlist.user_id) (library db).users ≡ true
      → (db' : sql.Db) × (i : ℤ) × (sql.execute_update c
            "INSERT INTO playlists (name, user_id, cover) VALUES (?, ?, ?)"
            (text playlist.name ∷ int playlist.user_id ∷ text_or_null playlist.cover ∷ [])
            db
          ≡ (db', some 1))
        × (any (has_id i) (library db).lists ≡ false)
        × (library db' ≡ record (library db) {
          lists =
              (library db).lists
              ++ record {
                id = i;
                user_id = playlist.user_id;
                name = playlist.name;
                cover = playlist.cover;
              }
                ∷ [];
        })
  pub insert_list_orphan :
      (c : ℕ) (playlist : Playlist) (db : sql.Db)
      → any (int_eq playlist.user_id) (library db).users ≡ false
      → (db' : sql.Db) × (sql.execute_update c
            "INSERT INTO playlists (name, user_id, cover) VALUES (?, ?, ?)"
            (text playlist.name ∷ int playlist.user_id ∷ text_or_null playlist.cover ∷ [])
            db
          ≡ (db', none))
        × (library db' ≡ library db)
  pub select_list :
      (c : ℕ) (i : ℤ) (db : sql.Db)
      → (db' : sql.Db) × (shown : List StoredList) × (sql.execute_query c
            "SELECT * FROM playlists WHERE id = ?"
            (int i ∷ [])
            db
          ≡ (db', some (map list_row shown)))
        × (map listed shown ≡ keep (has_id i) (library db).lists)
        × (library db' ≡ library db)
  -- Several rows come in an order of the server's choice.
  pub select_user_lists :
      (c : ℕ) (i : ℤ) (db : sql.Db)
      → (db' : sql.Db) × (shown : List StoredList) × (sql.execute_query c
            "SELECT * FROM playlists WHERE user_id = ?"
            (int i ∷ [])
            db
          ≡ (db', some (map list_row shown)))
        × Perm (map listed shown) (keep (λ p. int_eq p.user_id i) (library db).lists)
        × (library db' ≡ library db)
  -- The count is of the rows that match or that change.
  pub update_list :
      (c : ℕ) (playlist : Playlist) (db : sql.Db)
      → playlist_fits fits playlist ≡ true
      → (db' : sql.Db) × (n : ℕ) × (sql.execute_update c
            "UPDATE playlists SET name = ?, cover = ? WHERE id = ?"
            (text playlist.name ∷ text_or_null playlist.cover ∷ int playlist.id ∷ [])
            db
          ≡ (db', some n))
        × (library db' ≡ record (library db) { lists = map (renamed playlist) (library db).lists })
        × (any (has_id playlist.id) (library db).lists ≡ false → n ≡ 0)
        × (any (renames playlist) (library db).lists ≡ true → ltb 0 n ≡ true)
  -- `playlist_songs` has ON DELETE CASCADE.
  pub delete_list :
      (c : ℕ) (i : ℤ) (db : sql.Db)
      → (db' : sql.Db) × (n : ℕ) × (sql.execute_update c "DELETE FROM playlists WHERE id = ?"
            (int i ∷ [])
            db
          ≡ (db', some n))
        × (library db' ≡ record (library db) {
          lists = keep (λ p. not (has_id i p)) (library db).lists;
          entries = keep (λ x. not (within i x)) (library db).entries;
        })
        × (ltb 0 n ≡ any (has_id i) (library db).lists)
  -- A count that an int holds is one row with that number.
  pub count_matches :
      (c : ℕ) (i : ℤ) (song_id source : String) (db : sql.Db)
      → length (keep (matches same i song_id source) (library db).entries) < 2 ^ 31
      → (db' : sql.Db) × (r : sql.Row) × (sql.execute_query c
            "SELECT COUNT(*) as count FROM playlist_songs WHERE playlist_id = ? AND song_id = ? AND song_where = ?"
            (int i ∷ text song_id ∷ text source ∷ [])
            db
          ≡ (db', some (r ∷ [])))
        × (sql.get_int "count" r
            ≡ some (pos (length (keep (matches same i song_id source) (library db).entries))))
        × (library db' ≡ library db)
  pub count_within :
      (c : ℕ) (i : ℤ) (db : sql.Db)
      → length (keep (within i) (library db).entries) < 2 ^ 31
      → (db' : sql.Db) × (r : sql.Row) × (sql.execute_query c
            "SELECT COUNT(*) as count FROM playlist_songs WHERE playlist_id = ?"
            (int i ∷ [])
            db
          ≡ (db', some (r ∷ [])))
        × (sql.get_int "count" r ≡ some (pos (length (keep (within i) (library db).entries))))
        × (library db' ≡ library db)
  pub select_within :
      (c : ℕ) (i : ℤ) (db : sql.Db)
      → (db' : sql.Db) × (shown : List Stored) × (sql.execute_query c
            "SELECT * FROM playlist_songs WHERE playlist_id = ?"
            (int i ∷ [])
            db
          ≡ (db', some (map row shown)))
        × Perm (map entry shown) (keep (within i) (library db).entries)
        × (library db' ≡ library db)
  -- `playlist_id` with `song_id` and `song_where` is UNIQUE, and `playlist_id` REFERENCES
  -- `playlists`; `id` and `added_at` are the server's.
  pub insert :
      (c : ℕ) (i : ℤ) (song : Song) (db : sql.Db)
      → song_fits fits song ≡ true
      → any (matches same i song.song_id song.source) (library db).entries ≡ false
      → any (has_id i) (library db).lists ≡ true
      → (db' : sql.Db) × (id : ℤ) × (added_at : String) × (sql.execute_update c
            "INSERT INTO playlist_songs (playlist_id, song_id, song_name, song_singer, song_pic, song_where) VALUES (?, ?, ?, ?, ?, ?)"
            (int i
              ∷ text song.song_id
              ∷ text song.name
              ∷ text song.singer
              ∷ text_or_null song.pic
              ∷ text song.source
              ∷ [])
            db
          ≡ (db', some 1))
        × (library db' ≡ record (library db) {
          entries =
              (library db).entries
              ++ record { playlist_id = i; song = record song { id = id; added_at = added_at } }
                ∷ [];
        })
  pub insert_orphan :
      (c : ℕ) (i : ℤ) (song : Song) (db : sql.Db)
      → any (has_id i) (library db).lists ≡ false
      → (db' : sql.Db) × (sql.execute_update c
            "INSERT INTO playlist_songs (playlist_id, song_id, song_name, song_singer, song_pic, song_where) VALUES (?, ?, ?, ?, ?, ?)"
            (int i
              ∷ text song.song_id
              ∷ text song.name
              ∷ text song.singer
              ∷ text_or_null song.pic
              ∷ text song.source
              ∷ [])
            db
          ≡ (db', none))
        × (library db' ≡ library db)
  pub delete_matches :
      (c : ℕ) (i : ℤ) (song_id source : String) (db : sql.Db)
      → (db' : sql.Db) × (n : ℕ) × (sql.execute_update c
            "DELETE FROM playlist_songs WHERE playlist_id = ? AND song_id = ? && song_where = ?"
            (int i ∷ text song_id ∷ text source ∷ [])
            db
          ≡ (db', some n))
        × (library db' ≡ record (library db) {
          entries = keep (λ x. not (matches same i song_id source x)) (library db).entries;
        })
        × (n ≡ length (keep (matches same i song_id source) (library db).entries))
