-- ===== src/App.antt =====
-- The state that the handlers work on, and the effects that they are made of. A `World` is what
-- the singletons hold (the pool of DBManager, the table of VerifyService, the settings of
-- Config), what lies outside (database, network, disk), and the values that the clock and the
-- random device are going to return: `clock n` is the result of the n-th call of
-- `system_clock::now`, and `dice n` that of the n-th draw.
pub mod Rules
pub mod Connection
pub mod Steady
pub mod Frame
use hm_music_player_back_end.Prelude.{
  ℕ, suc, ℤ, String, Bool, Option, none, some, List, if◌then◌else◌,
}
use hm_music_player_back_end.Prelude.Effect.{
  Exception, json_exception, sql_exception, std_exception, Result, ok, throw, fault, Action, pure,
  or_raise, undefined, ◌>>=◌, ◌>>◌,
}
use hm_music_player_back_end.External.{External, Sql, JsonLib, JwtLib, CurlLib, FileLib}
use hm_music_player_back_end.Config.{VerifyServiceConfig}
use hm_music_player_back_end.Pool.{Pool, take_connection, release_connection}
use hm_music_player_back_end.VerifyService.{Codes}

pub record World (e : External) : Type 0 where
  pub db : e.sql.Db
  pub pool : Pool
  pub codes : Codes
  pub net : e.curl.Net
  pub disk : e.file.Disk
  pub config : VerifyServiceConfig
  pub clock : ℕ → ℤ
  pub reads : ℕ
  pub dice : ℕ → ℕ
  pub rolls : ℕ

abbrev pub App : External → Type 0 → Type 0
App e A = Action (World e) A

-- The handler of `catch (sql::SQLException&) { return a; }`; other exceptions pass.
unfoldable pub recover : {A : Type 0} → A → Result A → Result A
recover a (throw sql_exception) = ok a
recover a r = r

module _ {e : External} where
  unfoldable pub now : App e ℤ
  now w = (ok (w.clock w.reads), record w { reads = suc w.reads })

  unfoldable pub roll : App e ℕ
  roll w = (ok (w.dice w.rolls), record w { rolls = suc w.rolls })

  -- A call of the connector.
  unfoldable pub sql_call : {A : Type 0} → (e.sql.Db → e.sql.Db × Option A) → App e A
  sql_call f w = let (d, r) = f w.db in or_raise r sql_exception (record w { db = d })

  -- A value that is read from a row.
  unfoldable pub column : {A : Type 0} → Option A → App e A
  column r = or_raise r sql_exception

  unfoldable pub json_call : {A : Type 0} → Option A → App e A
  json_call r = or_raise r json_exception

  unfoldable pub catch_sql : {A : Type 0} → A → App e A → App e A
  unfolding recover
  catch_sql a m w = let (r, v) = m w in (recover a r, v)

  -- A connection that is not valid is opened again.
  reopen : ℕ → String → App e (Unit {0})
  unfolding sql_call
  reopen c db_name = do
    valid ← sql_call (e.sql.is_valid c)
    if valid
        then pure tt
        else (do _ ← sql_call (e.sql.reconnect c); sql_call (e.sql.set_schema c db_name))

  -- The second half of `getConnection`: an SQLException on the way is logged and dropped.
  revive : ℕ → App e (Unit {0})
  unfolding reopen catch_sql
  revive c w = catch_sql tt (reopen c w.pool.db_name) w

  take : App e (Option ℕ)
  take w = let (c, p) = take_connection w.pool in (ok c, record w { pool = p })

  lend : Option ℕ → App e (Option ℕ)
  lend none = pure none
  lend (some c) = revive c >> pure (some c)

  unfoldable pub get_connection : App e (Option ℕ)
  unfolding take lend revive
  get_connection = take >>= lend

  -- The destructor of SqlConnGuard, which runs when the block returns and when it throws.
  give_back : {A : Type 0} → ℕ → App e A → App e A
  give_back c m w = let (r, v) = m w in (r, record v { pool = release_connection c v.pool })

  -- A block that begins with `SqlConnGuard guard(db_manager->getConnection())` and goes on with a
  -- call through `guard`. Of a null pointer that call is undefined.
  guarded : {A : Type 0} → (ℕ → App e A) → Option ℕ → App e A
  guarded body none = undefined
  guarded body (some c) = give_back c (body c)

  unfoldable pub with_connection : {A : Type 0} → (ℕ → App e A) → App e A
  unfolding guarded give_back
  with_connection body = get_connection >>= guarded body
