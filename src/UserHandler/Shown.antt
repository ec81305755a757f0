-- ===== src/UserHandler/Shown.antt =====
-- The JSON of an account in the answers to a login and to a request for the profile, written out
-- as one object.
use hm_music_player_back_end.Prelude.{pos, String, [], ◌∷◌}
use hm_music_player_back_end.External.{Init, string, number}
use hm_music_player_back_end.Http.{pair, object}
use hm_music_player_back_end.UserDao.Table.{Account}

-- With the time at which the account was made.
abbrev pub answer_of : String → Account → String → Init
answer_of message a create_at = object (
    pair "code" (number (pos 200))
    ∷ pair "message" (string message)
    ∷ pair "user" (
        object (
          pair "id" (number a.id)
          ∷ pair "username" (string a.username)
          ∷ pair "email" (string a.email)
          ∷ pair "create_at" (string create_at)
          ∷ pair "qq_id" (string a.qq_id)
          ∷ pair "netease_id" (string a.netease_id)
          ∷ []))
    ∷ [])
