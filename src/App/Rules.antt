-- ===== src/App/Rules.antt =====
-- What actions do to the pool, one rule for each way to build an action.

use hm_music_player_back_end.Prelude.{
  ◌≡◌, refl, ◌∙◌, Bool, true, false, Option, none, some, if◌then◌else◌, ap,
}
use hm_music_player_back_end.Prelude.Effect.{
  json_exception, sql_exception, std_exception, Result, ok, throw, fault, pure, or_raise, ◌>>=◌,
  continue,
}
use hm_music_player_back_end.External.{External}
use hm_music_player_back_end.App.{World, App, recover, sql_call, column, catch_sql}

-- A result that is a value or an SQLException.
abbrev pub IsSqlResult : {A : Type 0} → Result A → Type 0
IsSqlResult (ok a) = Unit {0}
IsSqlResult (throw sql_exception) = Unit {0}
IsSqlResult r = ⊥

pub recover-IsSqlResult :
    {A : Type 0} (a : A) (r : Result A) → IsSqlResult r → (b : A) × (recover a r ≡ ok b)
unfolding recover
recover-IsSqlResult a (ok b) h = (b, refl)
recover-IsSqlResult a (throw sql_exception) h = (a, refl)
recover-IsSqlResult a (throw json_exception) h = absurd h
recover-IsSqlResult a (throw (std_exception s)) h = absurd h
recover-IsSqlResult a fault h = absurd h

-- `m` changes nothing but the database, and throws nothing but SQLException.
pub record Keeps {e : External} {A : Type 0} (m : App e A) : Type 0 where
  pub frame : (w : World e) → (m w).1 ≡ record w { db = (m w).1.db }
  pub result : (w : World e) → IsSqlResult (m w).0

module _ {e : External} {A : Type 0} where
  pub Keeps-pure : (a : A) → Keeps (pure {S = World e} a)
  Keeps-pure a = record { frame = λ w. refl; result = λ w. tt }

  or_raise-Keeps :
      (r : Option A) (w : World e)
      → ((or_raise r sql_exception w).1 ≡ w) × IsSqlResult (or_raise r sql_exception w).0
  or_raise-Keeps none w = (refl, tt)
  or_raise-Keeps (some a) w = (refl, tt)

  pub Keeps-column : (r : Option A) → Keeps (column {e = e} r)
  unfolding column
  Keeps-column r = record {
    frame = λ w. rw (or_raise-Keeps r w).0;
    result = λ w. (or_raise-Keeps r w).1;
  }

  pub Keeps-sql_call : (f : e.sql.Db → e.sql.Db × Option A) → Keeps (sql_call {e = e} f)
  unfolding sql_call
  Keeps-sql_call f = record {
    frame = λ w. let (d, r) = f w.db in rw (or_raise-Keeps r (record w { db = d })).0;
    result = λ w. let (d, r) = f w.db in (or_raise-Keeps r (record w { db = d })).1;
  }

  pub Keeps-if : (b : Bool) (m n : App e A) → Keeps m → Keeps n → Keeps (if b then m else n)
  Keeps-if true m n km kn = km
  Keeps-if false m n km kn = kn

module _ {e : External} {A B : Type 0} where
  continue-Keeps :
      (r : Result A) (f : A → App e B)
      → ((a : A) → Keeps (f a))
      → IsSqlResult r
      → (w : World e)
      → ((continue r f w).1 ≡ record w { db = (continue r f w).1.db })
        × IsSqlResult (continue r f w).0
  continue-Keeps (ok a) f kf h w = ((kf a).frame w, (kf a).result w)
  continue-Keeps (throw sql_exception) f kf h w = (refl, tt)
  continue-Keeps (throw json_exception) f kf h w = absurd h
  continue-Keeps (throw (std_exception s)) f kf h w = absurd h
  continue-Keeps fault f kf h w = absurd h

  pub Keeps-bind :
      (m : App e A) (f : A → App e B) → Keeps m → ((a : A) → Keeps (f a)) → Keeps (m >>= f)
  Keeps-bind m f km kf = record {
    frame = λ w.
        (continue-Keeps (m w).0 f kf (km.result w) (m w).1).0
        ∙ ap {A = World e} {B = World e} (λ v. record v { db = ((m >>= f) w).1.db }) (km.frame w);
    result = λ w. (continue-Keeps (m w).0 f kf (km.result w) (m w).1).1;
  }

pub ruleset keeps_rules = (Keeps-pure, Keeps-column, Keeps-sql_call, Keeps-if, Keeps-bind)

-- What `catch (sql::SQLException&)` makes of such a block: it returns, and only the database changed.
pub catch_sql-Keeps :
    {e : External} {A : Type 0} (a : A) (m : App e A)
    → Keeps m
    → (w : World e)
    → ((b : A) × ((catch_sql a m w).0 ≡ ok b))
      × ((catch_sql a m w).1 ≡ record w { db = (catch_sql a m w).1.db })
unfolding catch_sql
catch_sql-Keeps a m k w = (recover-IsSqlResult a (m w).0 (k.result w), k.frame w)
