-- ===== src/Examples/Playlists.antt =====
-- The small server of playlists keeps the laws of its tables, and answers calls.

use mathlib.Core.List.Perm
use hm_music_player_back_end.Prelude.{
  ℕ, suc, ℤ, pos, int_eq, ◌≤◌, ◌≡◌, refl, ap, inr, true, false, not, ltb, ◌==◌, List, [], ◌∷◌, ◌++◌,
  map, length, arith,
}
use native.Mathlib.Nat.{le_refl}
use hm_music_player_back_end.External.{External}
use hm_music_player_back_end.Models.{Song, Playlist}
use hm_music_player_back_end.App.{World}
use hm_music_player_back_end.UserDao.Table.{keep, any}
use hm_music_player_back_end.UserDao.Rows.{any-keep}
use hm_music_player_back_end.PlaylistDao.Connection.{
  PlaylistCall, creates, updates, finds_id, finds_user, deletes, adds, removes, lists, counts,
}
use hm_music_player_back_end.PlaylistDao.Library.{Entry, Listed, within, has_id, renamed, renames}
use hm_music_player_back_end.PlaylistDao.Table.{PlaylistTable}
use hm_music_player_back_end.PlaylistDao.Refinement.{Conform, playlist_calls_refine}
use hm_music_player_back_end.Examples.Outside.{outside}
use hm_music_player_back_end.Examples.Table.{text_of-text_or_null}
use hm_music_player_back_end.Examples.World.{ann_world, at_front}
use hm_music_player_back_end.Examples.PlaylistServer.{
  is_at, above, server, of_song, of_list, of_count,
}

map_id : {A : Type 0} (xs : List A) → map (λ x. x) xs ≡ xs
map_id [] = refl
map_id (x ∷ xs) = ap (λ l. x ∷ l) (map_id xs)

above_fresh : (n : ℕ) (ps : List Listed) → above ps ≤ n → any (has_id (pos n)) ps ≡ false
above_fresh n [] h = refl
above_fresh n (p ∷ ps) h = grind (arith, above_fresh n ps)

unmatched : (i : ℤ) (ps : List Listed) → any (has_id i) ps ≡ false → length (keep (has_id i) ps) ≡ 0
unmatched i [] h = refl
unmatched i (p ∷ ps) h = ground (arith, unmatched i ps)

changed :
    (playlist : Playlist) (ps : List Listed)
    → any (renames playlist) ps ≡ true
    → ltb 0 (length (keep (has_id playlist.id) ps)) ≡ true
changed playlist [] h = cc
changed playlist (p ∷ ps) h = ground (arith, changed playlist ps)

abbrev table : PlaylistTable server
table = record {
  Stored = Entry;
  row = of_song;
  entry = λ x. x;
  StoredList = Listed;
  list_row = of_list;
  listed = λ p. p;
  create_at = λ p. "2025";
  update_at = λ p. "2025";
  library = λ db. db;
  same = ◌==◌;
  fits = λ n s. true;
  row_id = λ s. refl;
  row_song_id = λ s. refl;
  row_name = λ s. refl;
  row_singer = λ s. refl;
  row_source = λ s. refl;
  row_added_at = λ s. refl;
  row_pic = λ s. inr (refl, refl);
  list_id = λ s. refl;
  list_user_id = λ s. refl;
  list_name = λ s. refl;
  list_create_at = λ s. refl;
  list_update_at = λ s. refl;
  list_cover = λ s. inr (refl, refl);
  ping = λ c db. (db, refl, refl);
  prepared_refused = λ c statement db. (db, refl, refl);
  insert_list = λ c playlist db fit there. (
    record db {
      lists =
          db.lists
          ++ record {
            id = pos (above db.lists);
            user_id = playlist.user_id;
            name = playlist.name;
            cover = playlist.cover;
          }
            ∷ [];
    },
    pos (above db.lists),
    rw (there, text_of-text_or_null playlist.cover) refl,
    above_fresh (above db.lists) db.lists (le_refl _),
    refl,
  );
  insert_list_orphan = λ c playlist db missing. (db, rw missing refl, refl);
  select_list = λ c i db. (db, keep (has_id i) db.lists, refl, map_id _, refl);
  select_user_lists = λ c i db. (
    db,
    keep (λ p. int_eq p.user_id i) db.lists,
    refl,
    rw (map_id (keep (λ p. int_eq p.user_id i) db.lists)) (Perm.refl _),
    refl,
  );
  update_list = λ c playlist db fit. (
    record db { lists = map (renamed playlist) db.lists },
    length (keep (has_id playlist.id) db.lists),
    rw (text_of-text_or_null playlist.cover) refl,
    refl,
    unmatched playlist.id db.lists,
    changed playlist db.lists,
  );
  delete_list = λ c i db. (
    record db {
      lists = keep (λ p. not (has_id i p)) db.lists;
      entries = keep (λ x. not (within i x)) db.entries;
    },
    length (keep (has_id i) db.lists),
    refl,
    refl,
    any-keep (has_id i) db.lists,
  );
  count_matches = λ c i song_id source db few.
      (db, of_count (length (keep (is_at i song_id source) db.entries)), refl, refl, refl);
  count_within =
      λ c i db few. (db, of_count (length (keep (within i) db.entries)), refl, refl, refl);
  select_within = λ c i db. (
    db,
    keep (within i) db.entries,
    refl,
    rw (map_id (keep (within i) db.entries)) (Perm.refl _),
    refl,
  );
  insert = λ c i song db fit free there. (
    record db {
      entries =
          db.entries
          ++ record {
            playlist_id = i;
            song = record song { id = pos (suc (length db.entries)); added_at = "2025" };
          }
            ∷ [];
    },
    pos (suc (length db.entries)),
    "2025",
    rw (there, text_of-text_or_null song.pic) refl,
    refl,
  );
  insert_orphan = λ c i song db missing. (db, rw missing refl, refl);
  delete_matches = λ c i song_id source db. (
    record db { entries = keep (λ x. not (is_at i song_id source x)) db.entries },
    length (keep (is_at i song_id source) db.entries),
    refl,
    refl,
    refl,
  );
}

abbrev outside_lists : External
outside_lists = record outside { sql = server }

abbrev list_world : World outside_lists
list_world = record {
  db = record { entries = []; lists = []; users = pos 1 ∷ [] };
  pool = ann_world.pool;
  codes = [];
  net = 0;
  disk = [];
  config = ann_world.config;
  clock = pos;
  reads = 0;
  dice = λ n. 7;
  rolls = 0;
}

abbrev tune : Song
tune = record {
  id = pos 0;
  song_id = "s";
  name = "tune";
  singer = "eve";
  pic = "";
  source = "QQ";
  added_at = "";
}

abbrev mix : Playlist
mix = record {
  id = pos 1;
  user_id = pos 1;
  name = "mix";
  cover = "";
  create_at = "";
  update_at = "";
}

abbrev calls : List PlaylistCall
calls =
    creates mix
    ∷ creates (record mix { user_id = pos 2 })
    ∷ finds_id (pos 1)
    ∷ finds_user (pos 1)
    ∷ adds (pos 1) tune
    ∷ adds (pos 1) tune
    ∷ adds (pos 2) tune
    ∷ lists (pos 1)
    ∷ updates (record mix { name = "best" })
    ∷ counts (pos 1)
    ∷ removes (pos 1) "s" "QQ"
    ∷ deletes (pos 1)
    ∷ []

playlist_calls_refine_example : Conform table calls list_world
playlist_calls_refine_example =
    playlist_calls_refine table calls list_world at_front
      (
        refl,
        (refl, (refl, (refl, (refl, (refl, (refl, (refl, (refl, (refl, (refl, (refl, tt))))))))))),
      )
      (omega arith)
