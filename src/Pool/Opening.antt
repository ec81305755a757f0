-- ===== src/Pool/Opening.antt =====
-- src/database/DBManager.{h,cpp}: the constructor, the destructor, and the one instance.
pub mod Size
use Prim.Native.String.{◌++◌ as add}
use hm_music_player_back_end.Prelude.{
  ℕ, zero, suc, pos, String, Option, none, some, List, [], ◌∷◌, ◌++◌, length,
}
use hm_music_player_back_end.Prelude.Effect.{std_exception, Result, ok, throw}
use hm_music_player_back_end.External.{Sql}
use hm_music_player_back_end.Decimal.{to_string}
use hm_music_player_back_end.Pool.{Pool}

-- The arguments of the constructor, which it moves into its members, but the size.
pub record Address : Type 0 where
  pub host : String
  pub port : ℕ
  pub user : String
  pub passwd : String
  pub db_name : String

unfoldable pub host_name : Address → String
host_name a = add "tcp://" (add a.host (add ":" (to_string (pos a.port))))

module _ (s : Sql) where
  -- `setSchema` on a connection that `connect` returned.
  schema_set : Option ℕ → String → s.Db → s.Db × Option ℕ
  schema_set none db_name db = (db, none)
  schema_set (some c) db_name db =
      let (d, r) = s.set_schema c db_name db in (d, elim r [ none ↦ none | some u ↦ some c ])

  -- One turn of the loop, up to `push_back`; `none` is an SQLException, which ends the loop.
  unfoldable pub open_connection : Address → s.Db → s.Db × Option ℕ
  unfolding host_name schema_set
  open_connection a db =
      let (d, c) = s.connect (host_name a) a.user a.passwd db in schema_set c a.db_name d

  unfoldable pub open_connections : ℕ → Address → List ℕ → s.Db → List ℕ × s.Db
  unfolding open_connection
  open_connections zero a connections db = (connections, db)
  open_connections (suc n) a connections db =
      let (d, r) = open_connection a db in
      elim r [ none ↦ (connections, d) | some c ↦ open_connections n a (connections ++ c ∷ []) d ]

  -- The constructor. `arrivals` are the waits that are to come.
  unfoldable pub db_manager : Address → ℕ → List (List ℕ) → s.Db → Pool × s.Db
  unfolding open_connections
  db_manager a pool_size arrivals db =
      let (connections, d) = open_connections pool_size a [] db in
      (record { connections = connections; arrivals = arrivals; db_name = a.db_name }, d)

  -- `init` with what `m_instance` points to.
  unfoldable pub init : Address → ℕ → List (List ℕ) → Option Pool × s.Db → Option Pool × s.Db
  unfolding db_manager
  init a pool_size arrivals (none, db) =
      let (p, d) = db_manager a pool_size arrivals db in (some p, d)
  init a pool_size arrivals (some p, db) = (some p, db)

  -- The loop of the destructor: an SQLException of one `close` leaves the others to come.
  unfoldable pub close_all : List ℕ → s.Db → s.Db
  close_all [] db = db
  close_all (c ∷ cs) db = close_all cs (s.close c db).0

  unfoldable pub destroy : Pool × s.Db → Pool × s.Db
  unfolding close_all
  destroy (p, db) = (record p { connections = [] }, close_all p.connections db)

unfoldable pub available : Pool → ℕ
available p = length p.connections

unfoldable pub get_instance : Option Pool → Result Pool
get_instance none = throw (std_exception "DBManager not initialized")
get_instance (some p) = ok p
