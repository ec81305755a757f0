-- ===== src/Examples/PlaylistServer.antt =====
-- A small server of playlists and their songs.

use hm_music_player_back_end.Prelude.{
  ℕ, suc, ℤ, pos, int_eq, String, Bool, true, false, not, ◌==◌, Option, none, some, List, [], ◌∷◌,
  ◌++◌, map, length, if◌then◌else◌,
}
use Prim.Native.Nat.{max}
use hm_music_player_back_end.External.{Sql, Param, int, text}
use hm_music_player_back_end.Models.{Song}
use hm_music_player_back_end.UserDao.Table.{keep, any}
use hm_music_player_back_end.PlaylistDao.Library.{Entry, Listed, Library, within, has_id, matches}
use hm_music_player_back_end.Examples.Outside.{text_of_param}

pub data SongRow : Type 0 where
  of_song : Entry → SongRow
  of_list : Listed → SongRow
  of_count : ℕ → SongRow

abbrev pub is_at : ℤ → String → String → Entry → Bool
is_at = matches (◌==◌)

abbrev pub added : List Param → Library → Library × Option ℕ
added (int i ∷ text song_id ∷ text name ∷ text singer ∷ pic ∷ text source ∷ []) db =
    if any (has_id i) db.lists
    then (
      record db {
        entries =
            db.entries
            ++ record {
              playlist_id = i;
              song = record {
                id = pos (suc (length db.entries));
                song_id = song_id;
                name = name;
                singer = singer;
                pic = text_of_param pic;
                source = source;
                added_at = "2025";
              };
            }
              ∷ [];
      },
      some 1,
    )
    else (db, none)
added params db = (db, none)

abbrev pub removed : List Param → Library → Library × Option ℕ
removed (int i ∷ text song_id ∷ text source ∷ []) db = (
  record db { entries = keep (λ x. not (is_at i song_id source x)) db.entries },
  some (length (keep (is_at i song_id source) db.entries)),
)
removed params db = (db, none)

-- A number above those of all playlists.
abbrev pub number_of : ℤ → ℕ
number_of (pos n) = n
number_of i = 0

abbrev pub above : List Listed → ℕ
above [] = 1
above (p ∷ ps) = max (suc (number_of p.id)) (above ps)

abbrev pub created : List Param → Library → Library × Option ℕ
created (text name ∷ int user ∷ cover ∷ []) db =
    if any (int_eq user) db.users
    then (
      record db {
        lists =
            db.lists
            ++ record {
              id = pos (above db.lists);
              user_id = user;
              name = name;
              cover = text_of_param cover;
            }
              ∷ [];
      },
      some 1,
    )
    else (db, none)
created params db = (db, none)

abbrev pub rewritten : List Param → Library → Library × Option ℕ
rewritten (text name ∷ cover ∷ int i ∷ []) db = (
  record db {
    lists =
        map
          (λ (p : Listed).
            if has_id i p then record p { name = name; cover = text_of_param cover } else p)
          db.lists;
  },
  some (length (keep (has_id i) db.lists)),
)
rewritten params db = (db, none)

abbrev pub dropped : List Param → Library → Library × Option ℕ
dropped (int i ∷ []) db = (
  record db {
    lists = keep (λ p. not (has_id i p)) db.lists;
    entries = keep (λ x. not (within i x)) db.entries;
  },
  some (length (keep (has_id i) db.lists)),
)
dropped params db = (db, none)

abbrev pub executed : String → List Param → Library → Library × Option ℕ
executed statement params db =
    if statement == "INSERT INTO playlists (name, user_id, cover) VALUES (?, ?, ?)"
    then created params db
    else if statement == "UPDATE playlists SET name = ?, cover = ? WHERE id = ?"
    then rewritten params db
    else if statement == "DELETE FROM playlists WHERE id = ?"
    then dropped params db
    else if statement
        == "DELETE FROM playlist_songs WHERE playlist_id = ? AND song_id = ? && song_where = ?"
    then removed params db
    else added params db

abbrev pub selected : String → List Param → Library → Option (List SongRow)
selected statement (int i ∷ []) db =
    if statement == "SELECT * FROM playlist_songs WHERE playlist_id = ?"
    then some (map of_song (keep (within i) db.entries))
    else if statement == "SELECT * FROM playlists WHERE id = ?"
    then some (map of_list (keep (has_id i) db.lists))
    else if statement == "SELECT * FROM playlists WHERE user_id = ?"
    then some (map of_list (keep (λ p. int_eq p.user_id i) db.lists))
    else some (of_count (length (keep (within i) db.entries)) ∷ [])
selected statement (int i ∷ text song_id ∷ text source ∷ []) db =
    some (of_count (length (keep (is_at i song_id source) db.entries)) ∷ [])
selected statement params db = none

abbrev pub text_column : String → Song → String
text_column name song =
    if name == "song_id"
    then song.song_id
    else if name == "song_name"
    then song.name
    else if name == "song_singer"
    then song.singer
    else if name == "song_pic"
    then song.pic
    else if name == "song_where"
    then song.source
    else song.added_at

abbrev pub list_column : String → Listed → String
list_column name p = if name == "name" then p.name else if name == "cover" then p.cover else "2025"

abbrev pub get_text : String → SongRow → Option String
get_text name (of_song x) = some (text_column name x.song)
get_text name (of_list p) = some (list_column name p)
get_text name (of_count n) = none

abbrev pub get_number : String → SongRow → Option ℤ
get_number name (of_song x) = some x.song.id
get_number name (of_list p) = some (if name == "id" then p.id else p.user_id)
get_number name (of_count n) = some (pos n)

abbrev pub server : Sql
server = record {
  Db = Library;
  Row = SongRow;
  connect = λ url user password db. (db, some 1);
  set_schema = λ c name db. (db, some tt);
  is_valid = λ c db. (db, some true);
  reconnect = λ c db. (db, some true);
  close = λ c db. (db, some tt);
  execute_update = λ c. executed;
  execute_query = λ c statement params db. (db, selected statement params db);
  prepared_execute_query = λ c statement db. (db, none);
  get_int = get_number;
  get_string = get_text;
  is_null = λ name row. some false;
}
