-- ===== src/UserDao/Accounts.antt =====
-- UserDAO as operations on a list of accounts.
use mathlib.Core.Option
use hm_music_player_back_end.Prelude.{
  ℕ, ℤ, int_eq, String, ◌≡◌, refl, ap, ◌∙◌, ◌⊎◌, inl, inr, Bool, true, false, ◌||◌, ◌&&◌, Option,
  none, some, List, [], ◌∷◌, ◌++◌, map, if◌then◌else◌,
}
use hm_music_player_back_end.Prelude.Effect.{ok}
use hm_music_player_back_end.External.{External, Param, int, text}
use hm_music_player_back_end.Models.{User}
use hm_music_player_back_end.Password.{hash_password}
use hm_music_player_back_end.App.{World, column, sql_call, catch_sql, recover}
use hm_music_player_back_end.App.Connection.{revived_valid, inside, rotated, with_connection-Keeps}
use hm_music_player_back_end.UserDao.{
  nullable, build_from_result_set, inserted_id, first_user, select_user, insert_user, executes,
  create_user, get_user_by_id, get_user_by_username, update_password,
}
use hm_music_player_back_end.UserDao.Connection.{
  call, call-IsGuarded, finds_username, select_user-Keeps, insert_user-Keeps, executes-Keeps,
}
use hm_music_player_back_end.UserDao.Table.{UserTable, keep, any, user_of}

abbrev pub first {ℓ} : {A : Type ℓ} → List A → Option A
first [] = none
first (x ∷ xs) = some x

pair_eq : {A B : Type 0} (p : A × B) (a : A) (b : B) → p.0 ≡ a → p.1 ≡ b → p ≡ (a, b)
pair_eq p a b h k = cc

module _ {e : External} (t : UserTable e.sql) where
  open t use {Stored, row, account, rows}

  nullable_lem :
      (name s : String) (r : e.sql.Row) (w : World e)
      → ((e.sql.is_null name r ≡ some true) × (s ≡ ""))
        ⊎ ((e.sql.is_null name r ≡ some false) × (e.sql.get_string name r ≡ some s))
      → nullable name r w ≡ (ok s, w)
  unfolding nullable column
  nullable_lem name s r w (inl (n, e)) = rw (n, e)
  nullable_lem name s r w (inr (n, e)) = rw (n, e)

  -- The record that is built of a row of the table.
  build_from_result_set-row :
      (s : Stored) (w : World e) → build_from_result_set (row s) w ≡ (ok (user_of t s), w)
  unfolding build_from_result_set column
  build_from_result_set-row s w =
      rw
        (
          t.row_id s,
          t.row_username s,
          t.row_passwd_hash s,
          t.row_email s,
          t.row_create_at s,
          t.row_update_at s,
          nullable_lem "qq_id" (account s).qq_id (row s) w (t.row_qq_id s),
          nullable_lem "netease_id" (account s).netease_id (row s) w (t.row_netease_id s),
        )
        refl

  pub rows_inside : (c : ℕ) (cs : List ℕ) (w : World e) → rows (inside c cs w).db ≡ rows w.db
  rows_inside c cs w =
      let (d, valid, same) = t.ping c w.db in
      rw (revived_valid c (record w { pool = record w.pool { connections = cs } }) d valid) same

  first_user-rows :
      (ss : List Stored) (w : World e)
      → first_user (map row ss) w ≡ (ok (Option.map (user_of t) (first ss)), w)
  unfolding first_user
  first_user-rows [] w = refl
  first_user-rows (s ∷ ss) w = rw (build_from_result_set-row s w) refl

  -- The block of a search, on the rows that the statement selects.
  select_user-rows :
      (statement : String) (key : Param) (sel : List Stored) (d : e.sql.Db) (c : ℕ) (w : World e)
      → e.sql.execute_query c statement (key ∷ []) w.db ≡ (d, some (map row sel))
      → select_user statement key c w
        ≡ (ok (Option.map (user_of t) (first sel)), record w { db = d })
  unfolding select_user sql_call
  select_user-rows statement key sel d c w h = rw h (first_user-rows sel (record w { db = d }))

  module _ (w : World e) (c : ℕ) (cs : List ℕ) (lent : w.pool.connections ≡ c ∷ cs) where
    -- Over a table of users that keeps MySQL's laws, with a connection at hand: getUserByUsername
    -- gives the first account of the name with all its columns, or none, and changes no row.
    pub get_user_by_username_lem :
        (name : String)
        → ((get_user_by_username name w).0
            ≡ ok (
                Option.map
                  (user_of t)
                  (first (keep (λ s. t.same (account s).username name) (rows w.db)))))
          × (rows (get_user_by_username name w).1.db ≡ rows w.db)
    unfolding get_user_by_username catch_sql recover
    get_user_by_username_lem name =
        let run =
          (with_connection-Keeps (select_user "SELECT * FROM users WHERE username = ?" (text name))
            (select_user-Keeps _ (text name)) w c cs lent).0 in
        let v = inside c cs w in
        let (d, selected, same) = t.select_username c name v.db in
        let found = select_user-rows _ (text name) _ d c v selected in
        rw (run, found, rows_inside c cs w) (refl, same ∙ rows_inside c cs w)

    -- The whole of the world after the search by name.
    pub get_user_by_username-rotated :
        (name : String)
        → (d : e.sql.Db) × (get_user_by_username name w ≡ (
          ok (
              Option.map
                (user_of t)
                (first (keep (λ s. t.same (account s).username name) (rows w.db)))),
          rotated c cs w d,
        ))
          × (rows d ≡ rows w.db)
    unfolding call
    get_user_by_username-rotated name =
        let (found, same) = get_user_by_username_lem name in
        let after = ((call-IsGuarded (finds_username name)).returns w c cs lent).1 in
        (_, pair_eq _ _ _ found after, same)

    -- Over a table of users that keeps MySQL's laws, with a connection at hand: getUserById gives
    -- the first account with the id with all its columns, or none, and changes no row.
    pub get_user_by_id_lem :
        (i : ℤ)
        → ((get_user_by_id i w).0
            ≡ ok (Option.map (user_of t) (first (keep (λ s. int_eq (account s).id i) (rows w.db)))))
          × (rows (get_user_by_id i w).1.db ≡ rows w.db)
    unfolding get_user_by_id catch_sql recover
    get_user_by_id_lem i =
        let run =
          (with_connection-Keeps (select_user "SELECT * FROM users WHERE id = ?" (int i))
            (select_user-Keeps _ (int i)) w c cs lent).0 in
        let v = inside c cs w in
        let (d, selected, same) = t.select_id c i v.db in
        let found = select_user-rows _ (int i) _ d c v selected in
        rw (run, found, rows_inside c cs w) (refl, same ∙ rows_inside c cs w)

    -- Whether the name or the address of a user is taken.
    abbrev pub is_taken : User → Bool
    is_taken user =
        any (λ s. t.same (account s).username user.username || t.same (account s).email user.email)
          (rows w.db)

    -- Over a table of users that keeps MySQL's laws, with a connection at hand: createUser of a
    -- user whose name and address are free and fit their columns, as the hash does, gives true and
    -- the id of a new account, which has the name, the address, the hash of the password and an id
    -- that no account had; the other accounts stay.
    pub create_user_free :
        (user : User)
        → t.fits 50 user.username
            && (t.fits 255 (hash_password e user.passwd_hash) && t.fits 50 user.email)
          ≡ true
        → is_taken user ≡ false
        → (s : Stored) × ((create_user user w).0 ≡ ok (true, record user { id = (account s).id }))
          × (rows (create_user user w).1.db ≡ rows w.db ++ s ∷ [])
          × (account s ≡ record {
            id = (account s).id;
            username = user.username;
            passwd_hash = hash_password e user.passwd_hash;
            email = user.email;
            qq_id = "";
            netease_id = "";
          })
          × (any (λ r. int_eq (account r).id (account s).id) (rows w.db) ≡ false)
    unfolding create_user catch_sql recover insert_user sql_call inserted_id column
    create_user_free user fit free =
        let run =
          (with_connection-Keeps (insert_user user) (insert_user-Keeps user) w c cs lent).0 in
        let v = inside c cs w in
        let at = rows_inside c cs w in
        let (d, s, inserted, grown, made, fresh) =
          t.insert c user.username (hash_password e user.passwd_hash) user.email v.db fit
            (rw at free) in
        let (d', r, asked, id, same) = t.select_last_insert_id c d in
        (
          s,
          rw (run, inserted, asked, id, made),
          rw (run, inserted, asked, id) (same ∙ grown ∙ ap (λ (l : List Stored). l ++ s ∷ []) at),
          rw made,
          rw at at fresh,
        )

    -- Over a table of users that keeps MySQL's laws, with a connection at hand: createUser of a
    -- user whose name or address is taken gives false and leaves the user and all accounts as they
    -- are.
    pub create_user_taken :
        (user : User)
        → is_taken user ≡ true
        → ((create_user user w).0 ≡ ok (false, user)) × (rows (create_user user w).1.db ≡ rows w.db)
    unfolding create_user catch_sql recover insert_user sql_call
    create_user_taken user taken =
        let run =
          (with_connection-Keeps (insert_user user) (insert_user-Keeps user) w c cs lent).0 in
        let v = inside c cs w in
        let at = rows_inside c cs w in
        let (d, refused, same) =
          t.insert_duplicate c user.username (hash_password e user.passwd_hash) user.email v.db
            (rw at taken) in
        rw (run, refused) (refl, same ∙ at)

    -- Over a table of users that keeps MySQL's laws, with a connection at hand: updatePassword of
    -- a password whose hash fits its column replaces the hash of the accounts with the id and of
    -- no other, and gives true whether there is such an account or not.
    pub update_password_lem :
        (i : ℤ) (password : String)
        → t.fits 255 (hash_password e password) ≡ true
        → ((update_password i password w).0 ≡ ok true)
          × (map account (rows (update_password i password w).1.db)
              ≡ map
                  (λ a.
                    if int_eq a.id i
                    then record a { passwd_hash = hash_password e password }
                    else a)
                  (map account (rows w.db)))
    unfolding update_password catch_sql recover executes sql_call
    update_password_lem i password fit =
        let run =
          (with_connection-Keeps
            (executes "UPDATE users SET passwd_hash = ? WHERE id = ?"
              (text (hash_password e password) ∷ int i ∷ []))
            (executes-Keeps _ _) w c cs lent).0 in
        let v = inside c cs w in
        let (d, n, updated, changed) =
          t.update_passwd_hash c (hash_password e password) i v.db fit in
        rw (run, updated)
          (
            refl,
            changed
                ∙ ap
                    (λ (l : List Stored).
                      map
                        (λ a.
                          if int_eq a.id i
                          then record a { passwd_hash = hash_password e password }
                          else a)
                        (map account l))
                    (rows_inside c cs w),
          )
