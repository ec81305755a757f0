-- ===== src/UserDao/Spec.antt =====
-- What UserDAO promises, over a list of accounts.
use hm_music_player_back_end.Prelude.{
  ℕ, ◌≡◌, ℤ, int_eq, String, Bool, true, false, not, ◌||◌, ◌&&◌, List, [], ◌∷◌, ◌++◌, map,
  if◌then◌else◌,
}
use mathlib.Core.Option
use hm_music_player_back_end.Models.{User}
use hm_music_player_back_end.UserDao.Table.{Account, keep, any, updated, differs, obstructs}
use hm_music_player_back_end.UserDao.Accounts.{first}
use hm_music_player_back_end.UserDao.Connection.{
  Call, Reply, creates, updates, finds_id, deletes, finds_username, sets_password, sets_qq_id,
  sets_netease_id,
}

abbrev pub account_of_user : User → Account
account_of_user user = record {
  id = user.id;
  username = user.username;
  passwd_hash = user.passwd_hash;
  email = user.email;
  qq_id = user.qq_id;
  netease_id = user.netease_id;
}

abbrev pub has_id : ℤ → Account → Bool
has_id i a = int_eq a.id i

-- Another value in the accounts with an id.
abbrev pub change : ℤ → (Account → Account) → List Account → List Account
change i f accounts = map (λ a. if has_id i a then f a else a) accounts

abbrev pub takes : (String → String → Bool) → User → Account → Bool
takes same user a = same a.username user.username || same a.email user.email

-- The collation, the hash of a password, and what fits a column of a length.
module _ (same : String → String → Bool) (hash : String → String) (fits : ℕ → String → Bool) where
  -- Whether the texts of a call fit their columns.
  abbrev pub texts_fit : Call → Bool
  texts_fit (creates user) =
      fits 50 user.username && (fits 255 (hash user.passwd_hash) && fits 50 user.email)
  texts_fit (updates user) =
      fits 50 user.username
      && (fits 50 user.email && (fits 50 user.qq_id && fits 50 user.netease_id))
  texts_fit (sets_password i password) = fits 255 (hash password)
  texts_fit (sets_qq_id i qq_id) = fits 50 qq_id
  texts_fit (sets_netease_id i netease_id) = fits 50 netease_id
  texts_fit c = true

  -- The accounts before, the reply, and the accounts after.
  abbrev pub Allowed : (c : Call) → List Account → Reply c → List Account → Type 0
  Allowed (creates user) before r after =
      if any (takes same user) before
      then (r ≡ (false, user)) × (after ≡ before)
      else (i : ℤ) × (any (has_id i) before ≡ false)
        × (r ≡ (true, record user { id = i }))
        × (after
            ≡ before
              ++ record {
                id = i;
                username = user.username;
                passwd_hash = hash user.passwd_hash;
                email = user.email;
                qq_id = "";
                netease_id = "";
              }
                ∷ [])
  Allowed (updates user) before r after =
      if any (has_id user.id) before && any (obstructs same user) before
      then (r ≡ false) × (after ≡ before)
      else (after ≡ map (updated user) before)
        × (not r || any (has_id user.id) before ≡ true)
        × (not (any (differs user) before) || r ≡ true)
  Allowed (finds_id i) before r after =
      (Option.map account_of_user r ≡ first (keep (has_id i) before)) × (after ≡ before)
  Allowed (finds_username name) before r after =
      (Option.map account_of_user r ≡ first (keep (λ a. same a.username name) before))
      × (after ≡ before)
  Allowed (deletes i) before r after =
      (r ≡ any (has_id i) before) × (after ≡ keep (λ a. not (has_id i a)) before)
  Allowed (sets_password i password) before r after =
      (r ≡ true) × (after ≡ change i (λ a. record a { passwd_hash = hash password }) before)
  Allowed (sets_qq_id i qq_id) before r after =
      (r ≡ true) × (after ≡ change i (λ a. record a { qq_id = qq_id }) before)
  Allowed (sets_netease_id i netease_id) before r after =
      (r ≡ true) × (after ≡ change i (λ a. record a { netease_id = netease_id }) before)
