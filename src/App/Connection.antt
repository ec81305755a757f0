-- ===== src/App/Connection.antt =====
-- What a block under SqlConnGuard does to the pool.
use mathlib.Core.List.{Perm}
use mathlib.Core.List.Perm
use hm_music_player_back_end.Prelude.{
  refl, ℕ, String, ◌≡◌, ◌∙◌, inl, inr, true, none, some, List, [], ◌∷◌, ◌++◌, ap,
}
use hm_music_player_back_end.Prelude.Effect.{Result, ok, fault}
use hm_music_player_back_end.External.{External}
use hm_music_player_back_end.Pool.Laws.{
  owned, take_connection_front, take_connection-Taken, release_connection-perm, IsExhausted,
  take_connection_exhausted,
}
use hm_music_player_back_end.Pool.{Pool, take_connection, release_connection}
use hm_music_player_back_end.App.{
  World, App, give_back, recover, sql_call, catch_sql, revive, reopen, get_connection,
  with_connection,
}
use hm_music_player_back_end.App.Frame.{IsFramed, IsFramed-Keeps}
use hm_music_player_back_end.App.Rules.{
  IsSqlResult, recover-IsSqlResult, Keeps, keeps_rules, catch_sql-Keeps,
}

module _ {e : External} where
  reopen-Keeps : (c : ℕ) (name : String) → Keeps (reopen {e = e} c name)
  unfolding reopen
  reopen-Keeps c name = search keeps_rules

  revive_lem :
      (c : ℕ) (w : World e)
      → ((revive c w).0 ≡ ok tt) × ((revive c w).1 ≡ record w { db = (revive c w).1.db })
  unfolding revive
  revive_lem c w =
      let k = catch_sql-Keeps tt (reopen c w.pool.db_name) (reopen-Keeps c w.pool.db_name) w in
      (k.0.1, k.1)

  -- The database once the connection is fit for use.
  unfoldable pub revived : ℕ → World e → e.sql.Db
  unfolding revive
  revived c w = (revive c w).1.db

  -- A connection that is valid is left as it is.
  pub revived_valid :
      (c : ℕ) (w : World e) (d : e.sql.Db)
      → e.sql.is_valid c w.db ≡ (d, some true)
      → revived c w ≡ d
  unfolding revived reopen sql_call catch_sql
  revived_valid c w d h = rw (h, revived)

  -- With a connection in hand, the block runs on it once it is fit for use, and gives it back.
  with_connection-some :
      {A : Type 0} (body : ℕ → App e A) (w : World e) (c : ℕ) (p : Pool)
      → take_connection w.pool ≡ (some c, p)
      → with_connection body w
        ≡ give_back c (body c) (record w { pool = p; db = revived c (record w { pool = p }) })
  unfolding with_connection get_connection revived
  with_connection-some body w c p h =
      let k = revive_lem c (record w { pool = p }) in
      rw (h, k.0) (ap (λ v. give_back c (body c) v) k.1)

  with_connection-none :
      {A : Type 0} (body : ℕ → App e A) (w : World e) (p : Pool)
      → take_connection w.pool ≡ (none, p)
      → with_connection body w ≡ (fault, record w { pool = p })
  unfolding with_connection get_connection
  with_connection-none body w p h = rw h

  -- The world in which a block runs that was given a connection from the front of the pool.
  abbrev pub inside : ℕ → List ℕ → World e → World e
  inside c cs w =
      let p : Pool = record w.pool { connections = cs } in
      record w { pool = p; db = revived c (record w { pool = p }) }

  -- What is left of a world but its database and the order of its pool.
  abbrev pub rotated : ℕ → List ℕ → World e → e.sql.Db → World e
  rotated c cs w db = record w { pool = record w.pool { connections = cs ++ c ∷ [] }; db = db }

  -- A block that keeps the pool, on a pool with a connection at hand: it ends with a value or an
  -- SQLException, and the connection goes from the front of the pool to its back.
  pub with_connection-Keeps :
      {A : Type 0} (body : ℕ → App e A)
      → ((c : ℕ) → Keeps (body c))
      → (w : World e) (c : ℕ) (cs : List ℕ) → w.pool.connections ≡ c ∷ cs
      → (with_connection body w
          ≡ ((body c (inside c cs w)).0, rotated c cs w (body c (inside c cs w)).1.db))
        × IsSqlResult (with_connection body w).0
  unfolding give_back release_connection
  with_connection-Keeps body k w c cs h =
      let run = with_connection-some body w c _ (take_connection_front w.pool c cs h) in
      let frame = (k c).frame (inside c cs w) in
      (
        run
            ∙ ap {A = World e} {B = Result _ × World e}
                (λ v. ((body c (inside c cs w)).0, record v { pool = release_connection c v.pool }))
                frame,
        rw run ((k c).result (inside c cs w)),
      )

  -- With a connection at hand, the result is that of the block, whatever it is.
  pub with_connection-result :
      {A : Type 0} (body : ℕ → App e A) (w : World e) (c : ℕ) (cs : List ℕ)
      → w.pool.connections ≡ c ∷ cs
      → (with_connection body w).0 ≡ (body c (inside c cs w)).0
  unfolding give_back
  with_connection-result body w c cs h =
      rw (with_connection-some body w c _ (take_connection_front w.pool c cs h)) refl

  -- Whatever the pool and its waits are, and whatever the block throws, no connection is lost and
  -- none made up.
  pub with_connection-IsFramed :
      {A : Type 0} (body : ℕ → App e A)
      → ((c : ℕ) → IsFramed (body c))
      → (w : World e) → Perm (owned (with_connection body w).1.pool) (owned w.pool)
  unfolding give_back
  with_connection-IsFramed body k w = elim (take_connection-Taken w.pool) [
    | inl (c, q, taken, same) ↦
        rw (with_connection-some body w c q taken, same, (k c).frame _)
          (release_connection-perm c q)
    | inr (q, taken, same) ↦ rw (with_connection-none body w q taken, same) (Perm.refl _)
  ]

  -- A block under SqlConnGuard that keeps the pool loses no connection and makes none up, whatever
  -- the pool and its waits are: the connections in it and those to come are the same, but for
  -- their order.
  pub with_connection-perm :
      {A : Type 0} (body : ℕ → App e A)
      → ((c : ℕ) → Keeps (body c))
      → (w : World e) → Perm (owned (with_connection body w).1.pool) (owned w.pool)
  with_connection-perm body k = with_connection-IsFramed body (λ c. IsFramed-Keeps (body c) (k c))

  -- With no connection to be had, the null pointer is used.
  pub with_connection_exhausted :
      {A : Type 0} (body : ℕ → App e A) (w : World e)
      → IsExhausted w.pool
      → (with_connection body w).0 ≡ fault
  with_connection_exhausted body w h =
      rw (
        with_connection-none body w (take_connection w.pool).1 (take_connection_exhausted w.pool h))

-- One block under SqlConnGuard whose SQLException is caught, seen from outside.
pub record IsGuarded {e : External} {A : Type 0} (m : App e A) : Type 0 where
  -- With a connection at hand the call returns; it changes nothing but the database, and the
  -- connection goes from the front of the pool to its back.
  pub returns :
      (w : World e) (c : ℕ) (cs : List ℕ)
      → w.pool.connections ≡ c ∷ cs
      → ((a : A) × ((m w).0 ≡ ok a)) × ((m w).1 ≡ rotated c cs w (m w).1.db)
  -- On every path the pool and the connections to come are the same, but for their order.
  pub conserves : (w : World e) → Perm (owned (m w).1.pool) (owned w.pool)
  -- With none to be had the call uses a null pointer.
  pub exhausted : (w : World e) → IsExhausted w.pool → (m w).0 ≡ fault

pub catch_sql-IsGuarded :
    {e : External} {A : Type 0} (a : A) (body : ℕ → App e A)
    → ((c : ℕ) → Keeps (body c))
    → IsGuarded (catch_sql a (with_connection body))
unfolding catch_sql recover
catch_sql-IsGuarded a body k = record {
  returns = λ w c cs h.
      let (run, r) = with_connection-Keeps body k w c cs h in (recover-IsSqlResult a _ r, rw run);
  conserves = with_connection-perm body k;
  exhausted = λ w h. rw (with_connection_exhausted body w h);
}
