-- ===== src/Models.antt =====
-- src/models/{user,playlist,song,playhistory}.h.
use hm_music_player_back_end.Prelude.{ℤ, pos, String}

pub record User : Type 0 where
  pub id : ℤ
  pub username : String
  pub passwd_hash : String
  pub email : String
  pub qq_id : String
  pub netease_id : String
  pub create_at : String
  pub update_at : String

-- The members' initialisers.
abbrev pub no_user : User
no_user = record {
  id = pos 0;
  username = "";
  passwd_hash = "";
  email = "";
  qq_id = "";
  netease_id = "";
  create_at = "";
  update_at = "";
}

-- The field `source` of a song is `where` in the source.
pub record Playlist : Type 0 where
  pub id : ℤ
  pub user_id : ℤ
  pub name : String
  pub cover : String
  pub create_at : String
  pub update_at : String

pub record Song : Type 0 where
  pub id : ℤ
  pub song_id : String
  pub name : String
  pub singer : String
  pub pic : String
  pub source : String
  pub added_at : String

pub record PlayHistory : Type 0 where
  pub id : ℤ
  pub user_id : ℤ
  pub song_id : String
  pub song_name : String
  pub song_singer : String
  pub song_pic : String
  pub song_where : String
  pub played_at : String
  pub song_count : ℤ
