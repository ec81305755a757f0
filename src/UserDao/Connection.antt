-- ===== src/UserDao/Connection.antt =====
-- What the methods of UserDAO do to the pool.
use mathlib.Core.List.{Perm}
use hm_music_player_back_end.Pool.Laws.{owned, IsExhausted}
use hm_music_player_back_end.Prelude.Effect.{ok, fault}
use hm_music_player_back_end.Prelude.{◌≡◌, ℕ, ℤ, String, Bool, Option, List, [], ◌∷◌}
use hm_music_player_back_end.External.{External, Param, int, text}
use hm_music_player_back_end.Models.{User}
use hm_music_player_back_end.App.{World, App}
use hm_music_player_back_end.App.Rules.{Keeps, keeps_rules}
use hm_music_player_back_end.App.Connection.{rotated, IsGuarded, catch_sql-IsGuarded}
use hm_music_player_back_end.UserDao.{
  nullable, build_from_result_set, inserted_id, first_user, insert_user, select_user, affects,
  executes, create_user, get_user_by_id, get_user_by_username, update_user, delete_user,
  update_password, update_qq_id, update_netease_id,
}

-- The public methods with their arguments, and the types of their results. The header declares a
-- `verifyPassword` too, which is defined nowhere.
pub data Call : Type 0 where
  creates updates : User → Call
  finds_id deletes : ℤ → Call
  finds_username : String → Call
  sets_password sets_qq_id sets_netease_id : ℤ → String → Call

abbrev pub Reply : Call → Type 0
Reply (creates user) = Bool × User
Reply (finds_id id) = Option User
Reply (finds_username username) = Option User
Reply c = Bool

module _ {e : External} where
  unfoldable pub call : (c : Call) → App e (Reply c)
  call (creates user) = create_user user
  call (updates user) = update_user user
  call (finds_id id) = get_user_by_id id
  call (deletes id) = delete_user id
  call (finds_username username) = get_user_by_username username
  call (sets_password id password) = update_password id password
  call (sets_qq_id id qq_id) = update_qq_id id qq_id
  call (sets_netease_id id netease_id) = update_netease_id id netease_id

  pub nullable-Keeps : (name : String) (row : e.sql.Row) → Keeps (nullable {e = e} name row)
  unfolding nullable
  nullable-Keeps name row = search keeps_rules

  build_from_result_set-Keeps : (row : e.sql.Row) → Keeps (build_from_result_set {e = e} row)
  unfolding build_from_result_set
  build_from_result_set-Keeps row = search keeps_rules depth 30

  first_user-Keeps : (rows : List e.sql.Row) → Keeps (first_user {e = e} rows)
  unfolding first_user
  first_user-Keeps [] = search keeps_rules
  first_user-Keeps (row ∷ rows) = search (keeps_rules, build_from_result_set-Keeps)

  inserted_id-Keeps : (user : User) (rows : List e.sql.Row) → Keeps (inserted_id {e = e} user rows)
  unfolding inserted_id
  inserted_id-Keeps user [] = search keeps_rules
  inserted_id-Keeps user (row ∷ rows) = search keeps_rules

  pub insert_user-Keeps : (user : User) (c : ℕ) → Keeps (insert_user {e = e} user c)
  unfolding insert_user
  insert_user-Keeps user c = search (keeps_rules, inserted_id-Keeps)

  pub select_user-Keeps : (s : String) (key : Param) (c : ℕ) → Keeps (select_user {e = e} s key c)
  unfolding select_user
  select_user-Keeps s key c = search (keeps_rules, first_user-Keeps)

  pub affects-Keeps :
      (s : String) (params : List Param) (c : ℕ) → Keeps (affects {e = e} s params c)
  unfolding affects
  affects-Keeps s params c = search keeps_rules

  pub executes-Keeps :
      (s : String) (params : List Param) (c : ℕ) → Keeps (executes {e = e} s params c)
  unfolding executes
  executes-Keeps s params c = search keeps_rules

  pub call-IsGuarded : (c : Call) → IsGuarded (call c)
  unfolding call create_user get_user_by_id get_user_by_username update_user delete_user
      update_password update_qq_id update_netease_id
  call-IsGuarded (creates user) = catch_sql-IsGuarded _ _ (insert_user-Keeps user)
  call-IsGuarded (finds_id id) = catch_sql-IsGuarded _ _ (select_user-Keeps _ (int id))
  call-IsGuarded (finds_username name) = catch_sql-IsGuarded _ _ (select_user-Keeps _ (text name))
  call-IsGuarded (updates user) = catch_sql-IsGuarded _ _ (affects-Keeps _ _)
  call-IsGuarded (deletes id) = catch_sql-IsGuarded _ _ (affects-Keeps _ _)
  call-IsGuarded (sets_password id password) = catch_sql-IsGuarded _ _ (executes-Keeps _ _)
  call-IsGuarded (sets_qq_id id qq_id) = catch_sql-IsGuarded _ _ (executes-Keeps _ _)
  call-IsGuarded (sets_netease_id id netease_id) = catch_sql-IsGuarded _ _ (executes-Keeps _ _)

  -- With a connection at hand each method of UserDAO returns, whatever the database server
  -- answers; it changes nothing but the database, and its connection goes from the front of the
  -- pool to the back.
  pub call_returns :
      (c : Call) (w : World e) (k : ℕ) (ks : List ℕ)
      → w.pool.connections ≡ k ∷ ks
      → ((r : Reply c) × ((call c w).0 ≡ ok r)) × ((call c w).1 ≡ rotated k ks w (call c w).1.db)
  call_returns c = (call-IsGuarded c).returns

  -- On every path of each method of UserDAO, the connections in the pool and those that other
  -- threads are going to give back are the same before and after, but for their order.
  pub call_conserves : (c : Call) (w : World e) → Perm (owned (call c w).1.pool) (owned w.pool)
  call_conserves c = (call-IsGuarded c).conserves

  -- Where no connection is in the pool and none comes back in time, each method of UserDAO goes
  -- through a null pointer.
  pub call_exhausted : (c : Call) (w : World e) → IsExhausted w.pool → (call c w).0 ≡ fault
  call_exhausted c = (call-IsGuarded c).exhausted
