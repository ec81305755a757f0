-- ===== src/Pool/Opening/Size.antt =====
-- How many connections the constructor puts into the pool.
use hm_music_player_back_end.Prelude.{
  ℕ, zero, suc, ◌+◌, ◌<◌, ◌≡◌, ◌⊎◌, inl, inr, Option-cases, none, List, [], ◌∷◌, ◌++◌, length,
  length-append, arith,
}
use hm_music_player_back_end.External.{Sql}
use hm_music_player_back_end.Pool.Opening.{Address, open_connection, open_connections, db_manager}

module _ (s : Sql) where
  -- The loop ends with as many connections more as there were turns, or with fewer, after a turn
  -- that failed and left the database as it is then.
  open_connections_lem :
      (n : ℕ) (a : Address) (cs : List ℕ) (db : s.Db)
      → (length (open_connections s n a cs db).0 ≡ length cs + n)
        ⊎ ((length (open_connections s n a cs db).0 < length cs + n)
            × ((before : s.Db) × (open_connection s a before
                  ≡ ((open_connections s n a cs db).1, none))))
  unfolding open_connections
  open_connections_lem zero a cs db = inl (omega arith)
  open_connections_lem (suc n) a cs db = elim (Option-cases (open_connection s a db).1) [
    | inl e ↦ grind arith
    | inr (c, e) ↦
        let h = open_connections_lem n a (cs ++ c ∷ []) (open_connection s a db).0 in
        let k = length-append cs (c ∷ []) in grind arith
  ]

  -- The constructor of DBManager fills the pool with as many connections as it was asked for, or
  -- with fewer, and then an attempt to connect or to set the schema failed, after which it made no
  -- other.
  pub db_manager-size :
      (a : Address) (pool_size : ℕ) (arrivals : List (List ℕ)) (db : s.Db)
      → (length (db_manager s a pool_size arrivals db).0.connections ≡ pool_size)
        ⊎ ((length (db_manager s a pool_size arrivals db).0.connections < pool_size)
            × ((before : s.Db) × (open_connection s a before
                  ≡ ((db_manager s a pool_size arrivals db).1, none))))
  unfolding db_manager
  db_manager-size a pool_size arrivals db =
      let h = open_connections_lem pool_size a [] db in grind arith
