-- ===== src/PlaylistDao/Spec.antt =====
-- What PlaylistDAO promises, over the playlists and their songs.
use mathlib.Core.Option
use mathlib.Core.List.{Perm}
use hm_music_player_back_end.Prelude.{
  ℕ, ℤ, pos, int_eq, String, ◌≡◌, Bool, true, false, not, ◌||◌, [], ◌∷◌, ◌++◌, map, length,
  if◌then◌else◌,
}
use hm_music_player_back_end.Models.{Playlist}
use hm_music_player_back_end.UserDao.Table.{keep, any}
use hm_music_player_back_end.UserDao.Accounts.{first}
use hm_music_player_back_end.PlaylistDao.Connection.{
  PlaylistCall, PlaylistReply, creates, updates, finds_id, finds_user, deletes, adds, removes,
  lists, counts,
}
use hm_music_player_back_end.PlaylistDao.Library.{
  Entry, Listed, Library, within, has_id, matches, renamed, renames, song_fits, playlist_fits,
}

abbrev pub listed_of : Playlist → Listed
listed_of playlist = record {
  id = playlist.id;
  user_id = playlist.user_id;
  name = playlist.name;
  cover = playlist.cover;
}

-- The collation, and what fits a column of a length.
module _ (same : String → String → Bool) (fits : ℕ → String → Bool) where
  abbrev pub texts_fit : PlaylistCall → Bool
  texts_fit (creates playlist) = playlist_fits fits playlist
  texts_fit (updates playlist) = playlist_fits fits playlist
  texts_fit (adds i song) = song_fits fits song
  texts_fit c = true

  -- The library before, the reply, and the library after.
  abbrev pub Allowed : (m : PlaylistCall) → Library → PlaylistReply m → Library → Type 0
  Allowed (creates playlist) before r after =
      if any (int_eq playlist.user_id) before.users
      then ((r ≡ (false, playlist))
          × (i : ℤ) × (any (has_id i) before.lists ≡ false)
          × (after ≡ record before {
            lists =
                before.lists
                ++ record {
                  id = i;
                  user_id = playlist.user_id;
                  name = playlist.name;
                  cover = playlist.cover;
                }
                  ∷ [];
          }))
      else (r ≡ (false, playlist)) × (after ≡ before)
  Allowed (updates playlist) before r after =
      (after ≡ record before { lists = map (renamed playlist) before.lists })
      × (not r || any (has_id playlist.id) before.lists ≡ true)
      × (not (any (renames playlist) before.lists) || r ≡ true)
  Allowed (finds_id i) before r after =
      (Option.map listed_of r ≡ first (keep (has_id i) before.lists)) × (after ≡ before)
  Allowed (finds_user i) before r after =
      Perm (map listed_of r) (keep (λ p. int_eq p.user_id i) before.lists) × (after ≡ before)
  Allowed (deletes i) before r after =
      (r ≡ any (has_id i) before.lists)
      × (after ≡ record before {
        lists = keep (λ p. not (has_id i p)) before.lists;
        entries = keep (λ x. not (within i x)) before.entries;
      })
  Allowed (adds i song) before r after =
      if any (matches same i song.song_id song.source) before.entries
      then (r ≡ true) × (after ≡ before)
      else if any (has_id i) before.lists
      then ((r ≡ true)
          × (id : ℤ) × (added_at : String) × (after ≡ record before {
            entries =
                before.entries
                ++ record { playlist_id = i; song = record song { id = id; added_at = added_at } }
                  ∷ [];
          }))
      else (r ≡ false) × (after ≡ before)
  Allowed (removes i song_id source) before r after =
      (r ≡ any (matches same i song_id source) before.entries)
      × (after ≡ record before {
        entries = keep (λ x. not (matches same i song_id source x)) before.entries;
      })
  Allowed (lists i) before r after =
      Perm r (map (λ (x : Entry). x.song) (keep (within i) before.entries)) × (after ≡ before)
  Allowed (counts i) before r after =
      (r ≡ pos (length (keep (within i) before.entries))) × (after ≡ before)
