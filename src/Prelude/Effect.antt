-- ===== src/Prelude/Effect.antt =====
-- Methods that change an object and may throw. What was written before a throw stays written, so
-- the state comes back beside the exception; `fault` is undefined behaviour, such as a call
-- through a null pointer, after which nothing is claimed.
use Prim.Native.String.{String}
use mathlib.Core.Option.{Option, none, some}

-- json::exception and sql::SQLException, which handlers catch by type, and any other
-- std::exception with its message.
pub data Exception : Type 0 where
  json_exception sql_exception : Exception
  std_exception : String → Exception

pub data Result {ℓ} (A : Type ℓ) : Type ℓ where
  ok : A → Result A
  throw : Exception → Result A
  fault : Result A

abbrev pub Action {ℓ κ} : Type ℓ → Type κ → Type (ℓ ⊔ κ)
Action S A = S → Result A × S

module _ {ℓ κ} {S : Type ℓ} {A : Type κ} where
  abbrev pub pure : A → Action S A
  pure a s = (ok a, s)

  abbrev pub raise : Exception → Action S A
  raise e s = (throw e, s)

  -- A value that a call returns, or the exception that it throws in its place.
  abbrev pub or_raise : Option A → Exception → Action S A
  or_raise none e s = (throw e, s)
  or_raise (some a) e s = (ok a, s)

  abbrev pub undefined : Action S A
  undefined s = (fault, s)

module _ {ℓ κ μ} {S : Type ℓ} {A : Type κ} {B : Type μ} where
  abbrev pub continue : Result A → (A → Action S B) → Action S B
  continue (ok a) f s = f a s
  continue (throw e) f s = (throw e, s)
  continue fault f s = (fault, s)

  infixl 5 ◌>>=◌ ◌>>◌
  abbrev pub ◌>>=◌ : Action S A → (A → Action S B) → Action S B
  ◌>>=◌ m f s = let (r, t) = m s in continue r f t

  abbrev pub ◌>>◌ : Action S A → Action S B → Action S B
  m >> k = m >>= λ _. k
