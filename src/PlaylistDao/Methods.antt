-- ===== src/PlaylistDao/Methods.antt =====
-- The methods of PlaylistDAO, each on the tables of playlists and songs.
use mathlib.Core.Option
use mathlib.Core.List.Perm
use hm_music_player_back_end.Prelude.{
  ℕ, ◌^◌, ◌<◌, ℤ, int_eq, String, ◌≡◌, refl, ap, subst, ◌∙◌, inl, inr, Bool, Bool-cases, true,
  false, ltb, List, [], ◌∷◌, ◌++◌, map, length, arith,
}
use hm_music_player_back_end.Prelude.Effect.{ok}
use hm_music_player_back_end.External.{External}
use hm_music_player_back_end.Models.{Song, Playlist}
use hm_music_player_back_end.App.{World, column, sql_call, catch_sql, recover}
use hm_music_player_back_end.App.Connection.{revived_valid, inside, rotated, with_connection-Keeps}
use hm_music_player_back_end.UserDao.{affects}
use hm_music_player_back_end.UserDao.Table.{any}
use hm_music_player_back_end.UserDao.Accounts.{first}
use hm_music_player_back_end.UserDao.Rows.{touched_only, touched, map-map, any-keep, length-keep}
use hm_music_player_back_end.UserDao.Blocks.{affects_done}
use hm_music_player_back_end.PlaylistDao.{
  insert_playlist, create_playlist, select_playlist, get_playlist_by_id, select_all,
  get_playlists_by_user_id, update_playlist, delete_playlist, add_song, add_song_to_playlist,
  remove_song_from_playlist, get_songs_in_playlist, first_count, count_songs,
  count_songs_in_playlist,
}
use hm_music_player_back_end.PlaylistDao.Connection.{
  PlaylistCall, PlaylistReply, creates, updates, finds_id, finds_user, deletes, adds, removes,
  lists, counts, playlist_call, insert_playlist-Keeps, select_playlist-Keeps, select_all-Keeps,
  build_playlist-Keeps, build_song-Keeps, add_song-Keeps, count_songs-Keeps,
}
use hm_music_player_back_end.PlaylistDao.Library.{
  Entry, Library, within, has_id, matches, song_fits, playlist_fits,
}
use hm_music_player_back_end.PlaylistDao.Table.{PlaylistTable}
use hm_music_player_back_end.PlaylistDao.Spec.{listed_of, texts_fit, Allowed}
use hm_music_player_back_end.PlaylistDao.Reading.{
  song_of, playlist_of, songs_read, playlists_read, first_playlist_read, is_there-count,
}

module _ {e : External} (t : PlaylistTable e.sql) (w : World e) (c : ℕ) (cs : List ℕ)
    (lent : w.pool.connections ≡ c ∷ cs) where
  open t use {library}

  abbrev v : World e
  v = inside c cs w

  pub library_inside : library (inside c cs w).db ≡ library w.db
  library_inside =
      let (d, valid, same) = t.ping c w.db in
      rw (revived_valid c (record w { pool = record w.pool { connections = cs } }) d valid) same

  -- A call returns, its connection goes to the back, and its outcome is allowed.
  abbrev pub Done : PlaylistCall → Type 0
  Done m =
      (r : PlaylistReply m) × (d : e.sql.Db) × (playlist_call m w ≡ (ok r, rotated c cs w d))
      × Allowed t.same t.fits m (library w.db) r (library d)

  -- From the database that the block finds.
  from_inside :
      (m : PlaylistCall) (r : PlaylistReply m) (d : e.sql.Db)
      → playlist_call m w ≡ (ok r, rotated c cs w d)
      → Allowed t.same t.fits m (library v.db) r (library d)
      → Done m
  from_inside m r d run allowed =
      (r, d, run, subst (λ l. Allowed t.same t.fits m l r (library d)) library_inside allowed)

  creates-Done :
      (playlist : Playlist) → playlist_fits t.fits playlist ≡ true → Done (creates playlist)
  unfolding playlist_call create_playlist insert_playlist catch_sql recover sql_call
  creates-Done playlist fit =
      let run = (with_connection-Keeps _ (insert_playlist-Keeps playlist) w c cs lent).0 in
      elim (Bool-cases (any (int_eq playlist.user_id) (library v.db).users)) [
        | inl k ↦
            let (d, i, done, fresh, grown) = t.insert_list c playlist v.db fit k in
            let (d', refused, same) = t.prepared_refused c "SELECT LAST_INSERT_ID() AS id" d in
            from_inside (creates playlist) (false, playlist) d' (rw (run, done, refused) refl)
              (rw k (refl, i, fresh, same ∙ grown))
        | inr k ↦
            let (d, refused, same) = t.insert_list_orphan c playlist v.db k in
            from_inside (creates playlist) (false, playlist) d (rw (run, refused) refl)
              (rw k (refl, same))
      ]

  updates-Done :
      (playlist : Playlist) → playlist_fits t.fits playlist ≡ true → Done (updates playlist)
  unfolding playlist_call update_playlist
  updates-Done playlist fit =
      let (d, n, done, changed, none_there, some_there) = t.update_list c playlist v.db fit in
      from_inside (updates playlist) (ltb 0 n) d (affects_done w c cs lent _ _ d n done)
        (changed, touched_only _ n none_there, touched _ n some_there)

  finds_id-Done : (i : ℤ) → Done (finds_id i)
  unfolding playlist_call get_playlist_by_id select_playlist catch_sql recover sql_call
  finds_id-Done i =
      let run = (with_connection-Keeps _ (select_playlist-Keeps i) w c cs lent).0 in
      let (d, shown, selected, kept, same) = t.select_list c i v.db in
      let found = first_playlist_read t shown (record v { db = d }) in
      from_inside (finds_id i) _ d (rw (run, selected, found) refl)
        (first-map shown ∙ ap first kept, same)
    where
      first-map :
          (ss : List t.StoredList)
          → Option.map listed_of (Option.map (playlist_of t) (first ss)) ≡ first (map t.listed ss)
      first-map [] = refl
      first-map (s ∷ ss) = refl

  finds_user-Done : (i : ℤ) → Done (finds_user i)
  unfolding playlist_call get_playlists_by_user_id select_all catch_sql recover sql_call
  finds_user-Done i =
      let run =
        (with_connection-Keeps _
          (select_all-Keeps _ build_playlist-Keeps "SELECT * FROM playlists WHERE user_id = ?" i) w
          c cs lent).0 in
      let (d, shown, selected, perm, same) = t.select_user_lists c i v.db in
      from_inside (finds_user i) (map (playlist_of t) shown) d
        (rw (run, selected, playlists_read t shown (record v { db = d })) refl)
        (rw (map-map listed_of (playlist_of t) shown) perm, same)

  deletes-Done : (i : ℤ) → Done (deletes i)
  unfolding playlist_call delete_playlist
  deletes-Done i =
      let (d, n, done, gone, counted) = t.delete_list c i v.db in
      from_inside (deletes i) (ltb 0 n) d (affects_done w c cs lent _ _ d n done) (counted, gone)

  lists-Done : (i : ℤ) → Done (lists i)
  unfolding playlist_call get_songs_in_playlist select_all catch_sql recover sql_call
  lists-Done i =
      let run =
        (with_connection-Keeps _
          (select_all-Keeps _ build_song-Keeps "SELECT * FROM playlist_songs WHERE playlist_id = ?"
            i)
          w c cs lent).0 in
      let (d, shown, selected, perm, same) = t.select_within c i v.db in
      let songs : map (λ (x : Entry). x.song) (map t.entry shown) ≡ map (song_of t) shown =
        map-map _ t.entry shown in
      from_inside (lists i) (map (song_of t) shown) d
        (rw (run, selected, songs_read t shown (record v { db = d })) refl)
        (rw (← songs) (Perm.map (λ (x : Entry). x.song) perm), same)

  removes-Done : (i : ℤ) (song_id source : String) → Done (removes i song_id source)
  unfolding playlist_call remove_song_from_playlist
  removes-Done i song_id source =
      let (d, n, done, gone, counted) = t.delete_matches c i song_id source v.db in
      from_inside (removes i song_id source) (ltb 0 n) d (affects_done w c cs lent _ _ d n done) (
        ap (ltb 0) counted ∙ any-keep (matches t.same i song_id source) (library v.db).entries,
        gone,
      )

  counts-Done : (i : ℤ) → length (library v.db).entries < 2 ^ 31 → Done (counts i)
  unfolding playlist_call count_songs_in_playlist count_songs first_count column catch_sql recover
      sql_call
  counts-Done i few =
      let run = (with_connection-Keeps _ (count_songs-Keeps i) w c cs lent).0 in
      let shorter = length-keep (within i) (library v.db).entries in
      let (d, r, selected, number, same) = t.count_within c i v.db (omega arith) in
      from_inside (counts i) _ d (rw (run, selected, number) refl) (refl, same)

  adds-Done :
      (i : ℤ) (song : Song)
      → song_fits t.fits song ≡ true
      → length (library v.db).entries < 2 ^ 31
      → Done (adds i song)
  unfolding playlist_call add_song_to_playlist add_song affects catch_sql recover sql_call
  adds-Done i song fit few =
      let p = matches t.same i song.song_id song.source in
      let run = (with_connection-Keeps _ (add_song-Keeps i song) w c cs lent).0 in
      let shorter = length-keep p (library v.db).entries in
      let (d, r, selected, number, same) =
        t.count_matches c i song.song_id song.source v.db (omega arith) in
      let found = any-keep p (library v.db).entries in
      let tested = λ (b : Bool) (q : any p (library v.db).entries ≡ b).
        is_there-count r _ b (record v { db = d }) number (found ∙ q) in
      elim (Bool-cases (any p (library v.db).entries)) [
        | inl q ↦
            from_inside (adds i song) true d (rw (run, selected, tested true q) refl)
              (rw q (refl, same))
        | inr q ↦ elim (Bool-cases (any (has_id i) (library v.db).lists)) [
          | inl k ↦
              let (d', id, added_at, done, grown) =
                t.insert c i song d fit (rw same q) (rw same k) in
              from_inside (adds i song) true d' (rw (run, selected, tested false q, done) refl) (
                rw (q, k)
                  (
                    refl,
                    id,
                    added_at,
                    grown
                        ∙ ap
                            (λ (l : Library). record l {
                              entries =
                                  l.entries
                                  ++ record {
                                    playlist_id = i;
                                    song = record song { id = id; added_at = added_at };
                                  }
                                    ∷ [];
                            })
                            same,
                  ))
          | inr k ↦
              let (d', refused, stays) = t.insert_orphan c i song d (rw same k) in
              from_inside (adds i song) false d' (rw (run, selected, tested false q, refused) refl)
                (rw (q, k) (refl, stays ∙ same))
        ]
      ]

  pub call-Done :
      (m : PlaylistCall)
      → texts_fit t.same t.fits m ≡ true
      → length (library (inside c cs w).db).entries < 2 ^ 31
      → Done m
  call-Done (creates playlist) fit few = creates-Done playlist fit
  call-Done (updates playlist) fit few = updates-Done playlist fit
  call-Done (finds_id i) fit few = finds_id-Done i
  call-Done (finds_user i) fit few = finds_user-Done i
  call-Done (deletes i) fit few = deletes-Done i
  call-Done (adds i song) fit few = adds-Done i song fit few
  call-Done (removes i song_id source) fit few = removes-Done i song_id source
  call-Done (lists i) fit few = lists-Done i
  call-Done (counts i) fit few = counts-Done i few
