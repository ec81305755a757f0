-- ===== src/UserDao.antt =====
-- src/database/UserDAO.{h,cpp}. Each method is a block under SqlConnGuard whose SQLException is
-- caught; what it does outside the block is kept outside.
pub mod Connection
pub mod Table
pub mod Accounts
pub mod Spec
pub mod Rows
pub mod Blocks
pub mod Refinement
use hm_music_player_back_end.Prelude.{
  ℕ, ◌<◌, ℤ, pos, String, Bool, true, false, not, Option, none, some, List, [], ◌∷◌, ◌==◌, ltb,
  if◌then◌else◌,
}
use hm_music_player_back_end.Prelude.Effect.{pure, ◌>>=◌, ◌>>◌}
use hm_music_player_back_end.External.{External, Param, int, text, null}
use hm_music_player_back_end.Models.{User, no_user}
use hm_music_player_back_end.Password.{hash_password}
use hm_music_player_back_end.App.{App, sql_call, column, catch_sql, with_connection}

-- `setString`, or `setNull` for an empty text.
abbrev pub text_or_null : String → Param
text_or_null s = if not (s == "") then text s else null

module _ {e : External} where
  open e use {sql}

  -- A column that may be NULL stays empty.
  unfoldable pub nullable : String → sql.Row → App e String
  nullable name row = do
    is_null ← column (sql.is_null name row)
    if not is_null then column (sql.get_string name row) else pure ""

  unfoldable pub build_from_result_set : sql.Row → App e User
  unfolding nullable
  build_from_result_set row = do
    id ← column (sql.get_int "id" row)
    username ← column (sql.get_string "username" row)
    passwd_hash ← column (sql.get_string "passwd_hash" row)
    email ← column (sql.get_string "email" row)
    create_at ← column (sql.get_string "create_at" row)
    update_at ← column (sql.get_string "update_at" row)
    qq_id ← nullable "qq_id" row
    netease_id ← nullable "netease_id" row
    pure (record {
      id = id;
      username = username;
      passwd_hash = passwd_hash;
      email = email;
      qq_id = qq_id;
      netease_id = netease_id;
      create_at = create_at;
      update_at = update_at;
    })

  -- `if (result->next()) { user.id = result->getInt("id"); return true; } return false;`
  inserted_id : User → List sql.Row → App e (Bool × User)
  inserted_id user [] = pure (false, user)
  inserted_id user (row ∷ rows) = do
    id ← column (sql.get_int "id" row)
    pure (true, record user { id = id })

  pub insert_user : User → ℕ → App e (Bool × User)
  unfolding inserted_id
  insert_user user guard = do
    _ ← sql_call (
        sql.execute_update guard "INSERT INTO users (username, passwd_hash, email) VALUES (?, ?, ?)"
          (text user.username ∷ text (hash_password e user.passwd_hash) ∷ text user.email ∷ []))
    result ← sql_call (sql.execute_query guard "SELECT LAST_INSERT_ID() AS id" [])
    inserted_id user result

  -- The user comes back with the result, since the argument is a reference that is written to.
  unfoldable pub create_user : User → App e (Bool × User)
  unfolding insert_user
  create_user user = catch_sql (false, user) (with_connection (insert_user user))

  -- `if (result->next()) return buildFromResultSet(result); return std::nullopt;`
  first_user : List sql.Row → App e (Option User)
  unfolding build_from_result_set
  first_user [] = pure none
  first_user (row ∷ rows) = do some_user ← build_from_result_set row; pure (some some_user)

  -- The blocks of the two searches, which differ in the statement.
  pub select_user : String → Param → ℕ → App e (Option User)
  unfolding first_user
  select_user statement key guard = do
    result ← sql_call (sql.execute_query guard statement (key ∷ []))
    first_user result

  unfoldable pub get_user_by_id : ℤ → App e (Option User)
  unfolding select_user
  get_user_by_id id =
      catch_sql none (with_connection (select_user "SELECT * FROM users WHERE id = ?" (int id)))

  unfoldable pub get_user_by_username : String → App e (Option User)
  unfolding select_user
  get_user_by_username username =
      catch_sql none
        (with_connection (select_user "SELECT * FROM users WHERE username = ?" (text username)))

  -- A block that runs one statement and tells whether it touched a row.
  unfoldable pub affects : String → List Param → ℕ → App e Bool
  affects statement params guard = do
    affected_row ← sql_call (sql.execute_update guard statement params)
    pure (ltb 0 affected_row)

  -- A block that runs one statement and succeeds whatever it touched.
  pub executes : String → List Param → ℕ → App e Bool
  executes statement params guard = do
    _ ← sql_call (sql.execute_update guard statement params)
    pure true

  unfoldable pub update_user : User → App e Bool
  unfolding affects
  update_user user = catch_sql false (
      with_connection (
        affects "UPDATE users SET username = ?, email = ?, qq_id = ?, netease_id = ? WHERE id = ?" (
          text user.username
          ∷ text user.email
          ∷ text_or_null user.qq_id
          ∷ text_or_null user.netease_id
          ∷ int user.id
          ∷ [])))

  unfoldable pub delete_user : ℤ → App e Bool
  unfolding affects
  delete_user id =
      catch_sql false (with_connection (affects "DELETE FROM users WHERE id = ?" (int id ∷ [])))

  unfoldable pub update_password : ℤ → String → App e Bool
  unfolding executes
  update_password user_id new_password = catch_sql false (
      with_connection (
        executes "UPDATE users SET passwd_hash = ? WHERE id = ?"
          (text (hash_password e new_password) ∷ int user_id ∷ [])))

  unfoldable pub update_qq_id : ℤ → String → App e Bool
  unfolding executes
  update_qq_id user_id qq_id = catch_sql false (
      with_connection
        (executes "UPDATE users SET qq_id = ? WHERE id = ?" (text qq_id ∷ int user_id ∷ [])))

  unfoldable pub update_netease_id : ℤ → String → App e Bool
  unfolding executes
  update_netease_id user_id netease_id = catch_sql false (
      with_connection (
        executes "UPDATE users SET netease_id = ? WHERE id = ?"
          (text netease_id ∷ int user_id ∷ [])))
