-- ===== src/UserDao/Refinement.antt =====
-- The methods of UserDAO keep to what they promise.
use mathlib.Core.Option
use hm_music_player_back_end.Prelude.{
  ℕ, ℤ, int_eq, String, ◌≡◌, refl, sym, ap, ◌∙◌, inl, inr, Bool-cases, true, false, not, ◌&&◌, ltb,
  List, [], ◌∷◌, ◌++◌, map, All,
}
use hm_music_player_back_end.Prelude.Effect.{ok}
use hm_music_player_back_end.External.{External}
use hm_music_player_back_end.Models.{User}
use hm_music_player_back_end.Password.{hash_password}
use hm_music_player_back_end.App.{World}
use hm_music_player_back_end.App.Steady.{HasFront, rotated_front}
use hm_music_player_back_end.App.Connection.{inside}
use hm_music_player_back_end.UserDao.{update_user, delete_user, update_qq_id, update_netease_id}
use hm_music_player_back_end.UserDao.Connection.{
  Call, Reply, creates, updates, finds_id, deletes, finds_username, sets_password, sets_qq_id,
  sets_netease_id, call, call_returns,
}
use hm_music_player_back_end.UserDao.Table.{
  UserTable, Account, keep, any, user_of, updated, differs, obstructs,
}
use hm_music_player_back_end.UserDao.Accounts.{
  first, rows_inside, get_user_by_username_lem, get_user_by_id_lem, create_user_free,
  create_user_taken, update_password_lem,
}
use hm_music_player_back_end.UserDao.Rows.{touched_only, touched, any-map, keep-map, map-append}
use hm_music_player_back_end.UserDao.Blocks.{executes_done, affects_done, affects_refused}
use hm_music_player_back_end.UserDao.Spec.{
  account_of_user, has_id, change, takes, texts_fit, Allowed,
}

module _ {e : External} (t : UserTable e.sql) (w : World e) (c : ℕ) (cs : List ℕ)
    (lent : w.pool.connections ≡ c ∷ cs) where
  open t use {Stored, account, rows}

  first-map :
      (xs : List Stored)
      → Option.map account_of_user (Option.map (user_of t) (first xs)) ≡ first (map account xs)
  first-map [] = refl
  first-map (x ∷ xs) = refl

  abbrev pub before : List Account
  before = map account (rows w.db)

  -- A call returns, and its outcome is allowed.
  abbrev pub Conforms : Call → Type 0
  Conforms m =
      (r : Reply m) × ((call m w).0 ≡ ok r)
      × Allowed t.same (hash_password e) t.fits m before r (map account (rows (call m w).1.db))

  finds_id-Conforms : (i : ℤ) → Conforms (finds_id i)
  unfolding call
  finds_id-Conforms i =
      let (found, same) = get_user_by_id_lem t w c cs lent i in
      (
        _,
        found,
        (
          first-map _ ∙ ap first (sym (keep-map account (has_id i) (rows w.db))),
          ap (map account) same,
        ),
      )

  finds_username-Conforms : (name : String) → Conforms (finds_username name)
  unfolding call
  finds_username-Conforms name =
      let (found, same) = get_user_by_username_lem t w c cs lent name in
      (
        _,
        found,
        (
          first-map _ ∙ ap first (sym (keep-map account (λ a. t.same a.username name) (rows w.db))),
          ap (map account) same,
        ),
      )

  sets_password-Conforms :
      (i : ℤ) (password : String)
      → t.fits 255 (hash_password e password) ≡ true
      → Conforms (sets_password i password)
  unfolding call
  sets_password-Conforms i password fit =
      let (done, changed) = update_password_lem t w c cs lent i password fit in
      (true, done, (refl, changed))

  at : rows (inside c cs w).db ≡ rows w.db
  at = rows_inside t c cs w

  sets_qq_id-Conforms :
      (i : ℤ) (qq_id : String) → t.fits 50 qq_id ≡ true → Conforms (sets_qq_id i qq_id)
  unfolding call update_qq_id
  sets_qq_id-Conforms i qq_id fit =
      let (d, n, done, changed) = t.update_qq_id c qq_id i (inside c cs w).db fit in
      let run = executes_done w c cs lent _ _ d n done in
      (
        true,
        ap (λ p. p.0) run,
        (
          refl,
          rw run
              (changed ∙ ap (λ l. change i (λ a. record a { qq_id = qq_id }) (map account l)) at),
        ),
      )

  sets_netease_id-Conforms :
      (i : ℤ) (netease_id : String)
      → t.fits 50 netease_id ≡ true
      → Conforms (sets_netease_id i netease_id)
  unfolding call update_netease_id
  sets_netease_id-Conforms i netease_id fit =
      let (d, n, done, changed) = t.update_netease_id c netease_id i (inside c cs w).db fit in
      let run = executes_done w c cs lent _ _ d n done in
      (
        true,
        ap (λ p. p.0) run,
        (
          refl,
          rw run (
              changed
              ∙ ap (λ l. change i (λ a. record a { netease_id = netease_id }) (map account l)) at),
        ),
      )

  deletes-Conforms : (i : ℤ) → Conforms (deletes i)
  unfolding call delete_user
  deletes-Conforms i =
      let (d, n, done, gone, counted) = t.delete_id c i (inside c cs w).db in
      let run = affects_done w c cs lent _ _ d n done in
      (
        ltb 0 n,
        ap (λ p. p.0) run,
        (
          counted
              ∙ ap (any (λ s. int_eq (account s).id i)) at
              ∙ sym (any-map account (has_id i) (rows w.db)),
          rw run (
              ap (map account) (gone ∙ ap (keep (λ s. not (int_eq (account s).id i))) at)
              ∙ sym (keep-map account (λ a. not (has_id i a)) (rows w.db))),
        ),
      )

  updates-Conforms :
      (user : User)
      → texts_fit t.same (hash_password e) t.fits (updates user) ≡ true
      → Conforms (updates user)
  unfolding call update_user
  updates-Conforms user fit =
      let same_id = any-map account (has_id user.id) (rows w.db) in
      let same_other = any-map account (obstructs t.same user) (rows w.db) in
      let same_change = any-map account (differs user) (rows w.db) in
      elim (Bool-cases (any (has_id user.id) before && any (obstructs t.same user) before)) [
        | inl q ↦
            let (d, refused, same) =
              t.update_columns_duplicate c user (inside c cs w).db
                (rw (at, ← same_id, ← same_other) q) in
            let run = affects_refused w c cs lent _ _ d refused in
            (false, ap (λ p. p.0) run, rw q (refl, rw run (ap (map account) (same ∙ at))))
        | inr q ↦
            let (d, n, done, changed, none_there, some_there) =
              t.update_columns c user (inside c cs w).db fit (rw (at, ← same_id, ← same_other) q) in
            let run = affects_done w c cs lent _ _ d n done in
            (
              ltb 0 n,
              ap (λ p. p.0) run,
              rw q (
                rw run (changed ∙ ap (λ l. map (updated user) (map account l)) at),
                touched_only _ n (λ z. none_there (rw (at, ← same_id) z)),
                touched _ n (λ z. some_there (rw (at, ← same_change) z)),
              ),
            )
      ]

  creates-Conforms :
      (user : User)
      → texts_fit t.same (hash_password e) t.fits (creates user) ≡ true
      → Conforms (creates user)
  unfolding call
  creates-Conforms user fit =
      let same = any-map account (takes t.same user) (rows w.db) in
      elim (Bool-cases (any (takes t.same user) before)) [
        | inl q ↦
            let (refused, stays) = create_user_taken t w c cs lent user (rw (← same) q) in
            (_, refused, rw q (refl, ap (map account) stays))
        | inr q ↦
            let (s, created, grown, made, fresh) =
              create_user_free t w c cs lent user fit (rw (← same) q) in
            (
              _,
              created,
              rw q (
                (account s).id,
                any-map account (has_id (account s).id) (rows w.db) ∙ fresh,
                refl,
                ap (map account) grown
                    ∙ map-append account (rows w.db) (s ∷ [])
                    ∙ ap (λ a. before ++ a ∷ []) made,
              ),
            )
      ]

  pub call-Conforms : (m : Call) → texts_fit t.same (hash_password e) t.fits m ≡ true → Conforms m
  call-Conforms (creates user) fit = creates-Conforms user fit
  call-Conforms (updates user) fit = updates-Conforms user fit
  call-Conforms (finds_id i) fit = finds_id-Conforms i
  call-Conforms (finds_username name) fit = finds_username-Conforms name
  call-Conforms (deletes i) fit = deletes-Conforms i
  call-Conforms (sets_password i password) fit = sets_password-Conforms i password fit
  call-Conforms (sets_qq_id i qq_id) fit = sets_qq_id-Conforms i qq_id fit
  call-Conforms (sets_netease_id i netease_id) fit = sets_netease_id-Conforms i netease_id fit

module _ {e : External} (t : UserTable e.sql) where
  -- A run of calls, each of which returns with an allowed outcome.
  abbrev pub Conform : List Call → World e → Type 0
  Conform [] w = Unit {0}
  Conform (m ∷ ms) w =
      ((r : Reply m) × ((call m w).0 ≡ ok r)
        × Allowed t.same (hash_password e) t.fits m (map t.account (t.rows w.db)) r
            (map t.account (t.rows (call m w).1.db)))
      × Conform ms (call m w).1

  -- Over a table of users that keeps MySQL's laws, with a connection at hand: each call in a run
  -- of the methods of UserDAO, with texts that fit their columns, returns what the specification
  -- on the list of accounts allows, and leaves the accounts that it allows.
  pub calls_refine :
      (ms : List Call) (w : World e) (f : HasFront w.pool.connections)
      → All (λ m. texts_fit t.same (hash_password e) t.fits m ≡ true) ms
      → Conform ms w
  calls_refine [] w f fit = tt
  calls_refine (m ∷ ms) w (c, cs, front) fit =
      let after = (call_returns m w c cs front).1 in
      (
        call-Conforms t w c cs front m fit.0,
        calls_refine ms (call m w).1 (rw after (rotated_front c cs)) fit.1,
      )
