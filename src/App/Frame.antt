-- ===== src/App/Frame.antt =====
-- Actions that leave all but the database alone, whatever they throw; one rule for each way to
-- build an action.
use hm_music_player_back_end.Prelude.{◌≡◌, refl, ◌∙◌, ap, Bool, true, false, Option, if◌then◌else◌}
use hm_music_player_back_end.Prelude.Effect.{
  Exception, Result, ok, throw, fault, pure, raise, undefined, ◌>>=◌, continue,
}
use hm_music_player_back_end.External.{External}
use hm_music_player_back_end.App.{World, App, sql_call, column}
use hm_music_player_back_end.App.Rules.{Keeps, Keeps-column, Keeps-sql_call}

pub record IsFramed {e : External} {A : Type 0} (m : App e A) : Type 0 where
  pub frame : (w : World e) → (m w).1 ≡ record w { db = (m w).1.db }

module _ {e : External} {A : Type 0} where
  pub IsFramed-Keeps : (m : App e A) → Keeps m → IsFramed m
  IsFramed-Keeps m k = record { frame = k.frame }

  pub IsFramed-pure : (a : A) → IsFramed (pure {S = World e} a)
  IsFramed-pure a = record { frame = λ w. refl }

  pub IsFramed-raise : (x : Exception) → IsFramed (raise {S = World e} {A = A} x)
  IsFramed-raise x = record { frame = λ w. refl }

  pub IsFramed-undefined : IsFramed (undefined {S = World e} {A = A})
  IsFramed-undefined = record { frame = λ w. refl }

  pub IsFramed-column : (r : Option A) → IsFramed (column {e = e} r)
  IsFramed-column r = IsFramed-Keeps _ (Keeps-column r)

  pub IsFramed-sql_call : (f : e.sql.Db → e.sql.Db × Option A) → IsFramed (sql_call {e = e} f)
  IsFramed-sql_call f = IsFramed-Keeps _ (Keeps-sql_call f)

  pub IsFramed-if :
      (b : Bool) (m n : App e A) → IsFramed m → IsFramed n → IsFramed (if b then m else n)
  IsFramed-if true m n fm fn = fm
  IsFramed-if false m n fm fn = fn

module _ {e : External} {A B : Type 0} where
  continue-frame :
      (r : Result A) (f : A → App e B)
      → ((a : A) → IsFramed (f a))
      → (w : World e) → (continue r f w).1 ≡ record w { db = (continue r f w).1.db }
  continue-frame (ok a) f kf w = (kf a).frame w
  continue-frame (throw x) f kf w = refl
  continue-frame fault f kf w = refl

  pub IsFramed-bind :
      (m : App e A) (f : A → App e B) → IsFramed m → ((a : A) → IsFramed (f a)) → IsFramed (m >>= f)
  IsFramed-bind m f km kf = record {
    frame = λ w.
        continue-frame (m w).0 f kf (m w).1
        ∙ ap {A = World e} {B = World e} (λ v. record v { db = ((m >>= f) w).1.db }) (km.frame w);
  }

pub ruleset frame_rules = (
  IsFramed-pure, IsFramed-raise, IsFramed-undefined, IsFramed-column, IsFramed-sql_call,
  IsFramed-if, IsFramed-bind,
)
