-- ===== src/UserDao/Table.antt =====
-- What the MySQL manual says of the statements of UserDAO on the table `users` of
-- sql/MusicPlayer.sql, while the server answers: the hypotheses of the theorems on accounts.
use hm_music_player_back_end.Prelude.{
  ℕ, ℤ, int_eq, String, ◌≡◌, ◌⊎◌, Bool, true, false, ◌||◌, ◌&&◌, not, ltb, ◌==◌, none, some, List,
  [], ◌∷◌, ◌++◌, map, if◌then◌else◌,
}
use hm_music_player_back_end.External.{Sql, int, text}
use hm_music_player_back_end.Models.{User}
use hm_music_player_back_end.UserDao.{text_or_null}

-- A row of the table but for its times; a NULL is an empty text.
pub record Account : Type 0 where
  pub id : ℤ
  pub username : String
  pub passwd_hash : String
  pub email : String
  pub qq_id : String
  pub netease_id : String

abbrev pub keep {ℓ} : {A : Type ℓ} → (A → Bool) → List A → List A
keep p [] = []
keep p (x ∷ xs) = let rest = keep p xs in if p x then x ∷ rest else rest

abbrev pub any {ℓ} : {A : Type ℓ} → (A → Bool) → List A → Bool
any p [] = false
any p (x ∷ xs) = p x || any p xs

-- The columns that updateUser writes, in the account with the id of the user.
abbrev pub updated : User → Account → Account
updated user a =
    if int_eq a.id user.id
    then record a {
      username = user.username;
      email = user.email;
      qq_id = user.qq_id;
      netease_id = user.netease_id;
    }
    else a

-- Whether it changes a column of this account.
abbrev pub differs : User → Account → Bool
differs user a =
    int_eq a.id user.id
    && not (
        a.username == user.username
        && (a.email == user.email && (a.qq_id == user.qq_id && a.netease_id == user.netease_id)))

-- Whether this account stands in the way of the user's name or address.
abbrev pub obstructs : (String → String → Bool) → User → Account → Bool
obstructs same user a =
    not (int_eq a.id user.id) && (same a.username user.username || same a.email user.email)

pub record UserTable (sql : Sql) : Type 1 where
  -- What the server stores of a row, and how a result set shows it.
  pub Stored : Type 0
  pub row : Stored → sql.Row
  pub account : Stored → Account
  pub create_at : Stored → String
  pub update_at : Stored → String
  pub rows : sql.Db → List Stored
  pub last_insert_id : ℕ → sql.Db → ℤ
  -- Equality of texts under the collation.
  pub same : String → String → Bool
  pub same_refl : (s : String) → same s s ≡ true
  pub row_id : (s : Stored) → sql.get_int "id" (row s) ≡ some (account s).id
  pub row_username : (s : Stored) → sql.get_string "username" (row s) ≡ some (account s).username
  pub row_passwd_hash :
      (s : Stored) → sql.get_string "passwd_hash" (row s) ≡ some (account s).passwd_hash
  pub row_email : (s : Stored) → sql.get_string "email" (row s) ≡ some (account s).email
  pub row_create_at : (s : Stored) → sql.get_string "create_at" (row s) ≡ some (create_at s)
  pub row_update_at : (s : Stored) → sql.get_string "update_at" (row s) ≡ some (update_at s)
  pub row_qq_id :
      (s : Stored)
      → ((sql.is_null "qq_id" (row s) ≡ some true) × ((account s).qq_id ≡ ""))
        ⊎ ((sql.is_null "qq_id" (row s) ≡ some false)
            × (sql.get_string "qq_id" (row s) ≡ some (account s).qq_id))
  pub row_netease_id :
      (s : Stored)
      → ((sql.is_null "netease_id" (row s) ≡ some true) × ((account s).netease_id ≡ ""))
        ⊎ ((sql.is_null "netease_id" (row s) ≡ some false)
            × (sql.get_string "netease_id" (row s) ≡ some (account s).netease_id))
  -- A connection of the pool is open.
  pub ping :
      (c : ℕ) (db : sql.Db)
      → (db' : sql.Db) × (sql.is_valid c db ≡ (db', some true)) × (rows db' ≡ rows db)
  pub select_username :
      (c : ℕ) (name : String) (db : sql.Db)
      → (db' : sql.Db) × (sql.execute_query c "SELECT * FROM users WHERE username = ?"
            (text name ∷ [])
            db
          ≡ (db', some (map row (keep (λ s. same (account s).username name) (rows db)))))
        × (rows db' ≡ rows db)
  pub select_id :
      (c : ℕ) (i : ℤ) (db : sql.Db)
      → (db' : sql.Db) × (sql.execute_query c "SELECT * FROM users WHERE id = ?" (int i ∷ []) db
          ≡ (db', some (map row (keep (λ s. int_eq (account s).id i) (rows db)))))
        × (rows db' ≡ rows db)
  -- Whether a text fits a VARCHAR of this length.
  pub fits : ℕ → String → Bool
  -- `username` and `email` are UNIQUE, `id` is AUTO_INCREMENT.
  pub insert :
      (c : ℕ) (name hash email : String) (db : sql.Db)
      → fits 50 name && (fits 255 hash && fits 50 email) ≡ true
      → any (λ s. same (account s).username name || same (account s).email email) (rows db) ≡ false
      → (db' : sql.Db) × (s : Stored) × (sql.execute_update c
            "INSERT INTO users (username, passwd_hash, email) VALUES (?, ?, ?)"
            (text name ∷ text hash ∷ text email ∷ [])
            db
          ≡ (db', some 1))
        × (rows db' ≡ rows db ++ s ∷ [])
        × (account s ≡ record {
          id = last_insert_id c db';
          username = name;
          passwd_hash = hash;
          email = email;
          qq_id = "";
          netease_id = "";
        })
        × (any (λ t. int_eq (account t).id (account s).id) (rows db) ≡ false)
  pub insert_duplicate :
      (c : ℕ) (name hash email : String) (db : sql.Db)
      → any (λ s. same (account s).username name || same (account s).email email) (rows db) ≡ true
      → (db' : sql.Db) × (sql.execute_update c
            "INSERT INTO users (username, passwd_hash, email) VALUES (?, ?, ?)"
            (text name ∷ text hash ∷ text email ∷ [])
            db
          ≡ (db', none))
        × (rows db' ≡ rows db)
  pub select_last_insert_id :
      (c : ℕ) (db : sql.Db)
      → (db' : sql.Db) × (r : sql.Row) × (sql.execute_query c "SELECT LAST_INSERT_ID() AS id" [] db
          ≡ (db', some (r ∷ [])))
        × (sql.get_int "id" r ≡ some (last_insert_id c db))
        × (rows db' ≡ rows db)
  pub update_passwd_hash :
      (c : ℕ) (hash : String) (i : ℤ) (db : sql.Db)
      → fits 255 hash ≡ true
      → (db' : sql.Db) × (n : ℕ) × (sql.execute_update c
            "UPDATE users SET passwd_hash = ? WHERE id = ?"
            (text hash ∷ int i ∷ [])
            db
          ≡ (db', some n))
        × (map account (rows db')
            ≡ map
                (λ a. if int_eq a.id i then record a { passwd_hash = hash } else a)
                (map account (rows db)))
  -- `username` and `email` stay UNIQUE. The count is of the rows that match or that change.
  pub update_columns :
      (c : ℕ) (user : User) (db : sql.Db)
      → fits 50 user.username
          && (fits 50 user.email && (fits 50 user.qq_id && fits 50 user.netease_id))
        ≡ true
      → any (λ s. int_eq (account s).id user.id) (rows db)
          && any (λ s. obstructs same user (account s)) (rows db)
        ≡ false
      → (db' : sql.Db) × (n : ℕ) × (sql.execute_update c
            "UPDATE users SET username = ?, email = ?, qq_id = ?, netease_id = ? WHERE id = ?"
            (text user.username
              ∷ text user.email
              ∷ text_or_null user.qq_id
              ∷ text_or_null user.netease_id
              ∷ int user.id
              ∷ [])
            db
          ≡ (db', some n))
        × (map account (rows db') ≡ map (updated user) (map account (rows db)))
        × (any (λ s. int_eq (account s).id user.id) (rows db) ≡ false → n ≡ 0)
        × (any (λ s. differs user (account s)) (rows db) ≡ true → ltb 0 n ≡ true)
  pub update_columns_duplicate :
      (c : ℕ) (user : User) (db : sql.Db)
      → any (λ s. int_eq (account s).id user.id) (rows db)
          && any (λ s. obstructs same user (account s)) (rows db)
        ≡ true
      → (db' : sql.Db) × (sql.execute_update c
            "UPDATE users SET username = ?, email = ?, qq_id = ?, netease_id = ? WHERE id = ?"
            (text user.username
              ∷ text user.email
              ∷ text_or_null user.qq_id
              ∷ text_or_null user.netease_id
              ∷ int user.id
              ∷ [])
            db
          ≡ (db', none))
        × (rows db' ≡ rows db)
  pub delete_id :
      (c : ℕ) (i : ℤ) (db : sql.Db)
      → (db' : sql.Db) × (n : ℕ) × (sql.execute_update c "DELETE FROM users WHERE id = ?"
            (int i ∷ [])
            db
          ≡ (db', some n))
        × (rows db' ≡ keep (λ s. not (int_eq (account s).id i)) (rows db))
        × (ltb 0 n ≡ any (λ s. int_eq (account s).id i) (rows db))
  pub update_qq_id :
      (c : ℕ) (qq_id : String) (i : ℤ) (db : sql.Db)
      → fits 50 qq_id ≡ true
      → (db' : sql.Db) × (n : ℕ) × (sql.execute_update c "UPDATE users SET qq_id = ? WHERE id = ?"
            (text qq_id ∷ int i ∷ [])
            db
          ≡ (db', some n))
        × (map account (rows db')
            ≡ map
                (λ a. if int_eq a.id i then record a { qq_id = qq_id } else a)
                (map account (rows db)))
  pub update_netease_id :
      (c : ℕ) (netease_id : String) (i : ℤ) (db : sql.Db)
      → fits 50 netease_id ≡ true
      → (db' : sql.Db) × (n : ℕ) × (sql.execute_update c
            "UPDATE users SET netease_id = ? WHERE id = ?"
            (text netease_id ∷ int i ∷ [])
            db
          ≡ (db', some n))
        × (map account (rows db')
            ≡ map
                (λ a. if int_eq a.id i then record a { netease_id = netease_id } else a)
                (map account (rows db)))

-- The user that the program makes of a row.
module _ {sql : Sql} (t : UserTable sql) where
  abbrev pub user_of : t.Stored → User
  user_of s = record {
    id = (t.account s).id;
    username = (t.account s).username;
    passwd_hash = (t.account s).passwd_hash;
    email = (t.account s).email;
    qq_id = (t.account s).qq_id;
    netease_id = (t.account s).netease_id;
    create_at = t.create_at s;
    update_at = t.update_at s;
  }
