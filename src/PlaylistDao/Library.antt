-- ===== src/PlaylistDao/Library.antt =====
-- The tables `playlists` and `playlist_songs` of sql/MusicPlayer.sql, as PlaylistDAO reads them.
use hm_music_player_back_end.Prelude.{
  ℕ, ℤ, int_eq, String, Bool, ◌||◌, ◌&&◌, not, ◌==◌, List, if◌then◌else◌,
}
use hm_music_player_back_end.Models.{Song, Playlist}

-- A row of `playlist_songs`, and one of `playlists` but for its times; a NULL is an empty text.
pub record Entry : Type 0 where
  pub playlist_id : ℤ
  pub song : Song

pub record Listed : Type 0 where
  pub id : ℤ
  pub user_id : ℤ
  pub name : String
  pub cover : String

-- Both tables, and the ids of `users`.
pub record Library : Type 0 where
  pub entries : List Entry
  pub lists : List Listed
  pub users : List ℤ

abbrev pub within : ℤ → Entry → Bool
within i x = int_eq x.playlist_id i

abbrev pub has_id : ℤ → Listed → Bool
has_id i p = int_eq p.id i

-- The row of a song of a source in a playlist, with equality of texts under the collation.
abbrev pub matches : (String → String → Bool) → ℤ → String → String → Entry → Bool
matches same i song_id source x =
    within i x && (same x.song.song_id song_id && same x.song.source source)

-- What updatePlaylist writes, and whether it changes a playlist.
abbrev pub renamed : Playlist → Listed → Listed
renamed playlist p =
    if has_id playlist.id p then record p { name = playlist.name; cover = playlist.cover } else p

abbrev pub renames : Playlist → Listed → Bool
renames playlist p =
    has_id playlist.id p && not (p.name == playlist.name && p.cover == playlist.cover)

-- Whether the texts fit their columns, where `fits` tells it of a VARCHAR of a length.
abbrev pub song_fits : (ℕ → String → Bool) → Song → Bool
song_fits fits song =
    fits 50 song.song_id
    && (fits 255 song.name
        && (fits 255 song.singer
            && (fits 255 song.pic && (song.source == "QQ" || song.source == "NetEase"))))

abbrev pub playlist_fits : (ℕ → String → Bool) → Playlist → Bool
playlist_fits fits playlist = fits 50 playlist.name && fits 255 playlist.cover
