-- ===== src/App/Steady.antt =====
-- Actions that run to an end on a pool with a connection at hand, one rule for each way to build
-- an action.
use mathlib.Core.List.{Perm, perm_middle, append-nil}
use mathlib.Core.List.Perm
use hm_music_player_back_end.Prelude.{
  ℕ, ◌≡◌, refl, subst, Bool, true, false, Option, none, some, List, [], ◌∷◌, ◌++◌, if◌then◌else◌,
}
use hm_music_player_back_end.Prelude.Effect.{
  Exception, json_exception, Result, ok, throw, fault, pure, raise, or_raise, ◌>>=◌, continue,
}
use hm_music_player_back_end.External.{External}
use hm_music_player_back_end.App.{World, App, now, roll, json_call}
use hm_music_player_back_end.App.Connection.{IsGuarded}

abbrev pub IsDefined : {A : Type 0} → Result A → Type 0
IsDefined fault = ⊥
IsDefined r = Unit {0}

abbrev pub HasFront : List ℕ → Type 0
HasFront cs = (c : ℕ) × (rest : List ℕ) × (cs ≡ c ∷ rest)

-- On a pool with a connection at hand nothing undefined happens, and the connections that lie
-- there afterwards are the same but for their order.
pub record IsSteady {e : External} {A : Type 0} (m : App e A) : Type 0 where
  pub defined : (w : World e) → HasFront w.pool.connections → IsDefined (m w).0
  pub front : (w : World e) → HasFront w.pool.connections → HasFront (m w).1.pool.connections
  pub same :
      (w : World e) → HasFront w.pool.connections → Perm (m w).1.pool.connections w.pool.connections

pub rotated_front : (c : ℕ) (cs : List ℕ) → HasFront (cs ++ c ∷ [])
rotated_front c [] = (c, [], refl)
rotated_front c (d ∷ cs) = (d, cs ++ c ∷ [], refl)

rotated_perm : (c : ℕ) (cs : List ℕ) → Perm (cs ++ c ∷ []) (c ∷ cs)
rotated_perm c cs = subst (λ ds. Perm (cs ++ c ∷ []) (c ∷ ds)) (append-nil cs) (perm_middle cs [])

pub ok-IsDefined : {A : Type 0} (r : Result A) (a : A) → r ≡ ok a → IsDefined r
ok-IsDefined r a h = rw h tt

module _ {e : External} {A : Type 0} where
  -- An action that leaves the pool alone.
  pub IsSteady-quiet :
      (m : App e A)
      → ((w : World e) → IsDefined (m w).0)
      → ((w : World e) → (m w).1.pool ≡ w.pool)
      → IsSteady m
  IsSteady-quiet m d q = record {
    defined = λ w f. d w;
    front = λ w f. rw (q w) f;
    same = λ w f. rw (q w) (Perm.refl _);
  }

  pub IsSteady-pure : (a : A) → IsSteady (pure {S = World e} a)
  IsSteady-pure a = IsSteady-quiet _ (λ w. tt) (λ w. refl)

  pub IsSteady-raise : (x : Exception) → IsSteady (raise {S = World e} {A = A} x)
  IsSteady-raise x = IsSteady-quiet _ (λ w. tt) (λ w. refl)

  or_raise-IsDefined : (r : Option A) (x : Exception) (w : World e) → IsDefined (or_raise r x w).0
  or_raise-IsDefined none x w = tt
  or_raise-IsDefined (some a) x w = tt

  or_raise-pool : (r : Option A) (x : Exception) (w : World e) → (or_raise r x w).1.pool ≡ w.pool
  or_raise-pool none x w = refl
  or_raise-pool (some a) x w = refl

  pub IsSteady-or_raise : (r : Option A) (x : Exception) → IsSteady {e = e} (or_raise r x)
  IsSteady-or_raise r x = IsSteady-quiet _ (or_raise-IsDefined r x) (or_raise-pool r x)

  pub IsSteady-json_call : (r : Option A) → IsSteady {e = e} (json_call r)
  unfolding json_call
  IsSteady-json_call r = IsSteady-or_raise r json_exception

  pub IsSteady-if :
      (b : Bool) (m n : App e A) → IsSteady m → IsSteady n → IsSteady (if b then m else n)
  IsSteady-if true m n sm sn = sm
  IsSteady-if false m n sm sn = sn

  -- A method of a DAO.
  pub IsSteady-IsGuarded : (m : App e A) → IsGuarded m → IsSteady m
  IsSteady-IsGuarded m g = record {
    defined = λ w (c, cs, h). let r = (g.returns w c cs h).0 in ok-IsDefined _ r.0 r.1;
    front = λ w (c, cs, h). rw ((g.returns w c cs h).1) (rotated_front c cs);
    same = λ w (c, cs, h). rw ((g.returns w c cs h).1, h) (rotated_perm c cs);
  }

module _ {e : External} {A B : Type 0} where
  continue-IsDefined :
      (r : Result A) (f : A → App e B)
      → ((a : A) → IsSteady (f a))
      → IsDefined r
      → (w : World e) → HasFront w.pool.connections
      → IsDefined (continue r f w).0
  continue-IsDefined (ok a) f sf d w h = (sf a).defined w h
  continue-IsDefined (throw x) f sf d w h = tt
  continue-IsDefined fault f sf d w h = absurd d

  continue-front :
      (r : Result A) (f : A → App e B)
      → ((a : A) → IsSteady (f a))
      → (w : World e) → HasFront w.pool.connections
      → HasFront (continue r f w).1.pool.connections
  continue-front (ok a) f sf w h = (sf a).front w h
  continue-front (throw x) f sf w h = h
  continue-front fault f sf w h = h

  continue-same :
      (r : Result A) (f : A → App e B)
      → ((a : A) → IsSteady (f a))
      → (w : World e) → HasFront w.pool.connections
      → Perm (continue r f w).1.pool.connections w.pool.connections
  continue-same (ok a) f sf w h = (sf a).same w h
  continue-same (throw x) f sf w h = Perm.refl _
  continue-same fault f sf w h = Perm.refl _

  pub IsSteady-bind :
      (m : App e A) (f : A → App e B) → IsSteady m → ((a : A) → IsSteady (f a)) → IsSteady (m >>= f)
  IsSteady-bind m f sm sf = record {
    defined = λ w h. continue-IsDefined (m w).0 f sf (sm.defined w h) (m w).1 (sm.front w h);
    front = λ w h. continue-front (m w).0 f sf (m w).1 (sm.front w h);
    same = λ w h. Perm.trans (continue-same (m w).0 f sf (m w).1 (sm.front w h)) (sm.same w h);
  }

  -- An action that looks at the world where it starts.
  pub IsSteady-reads :
      (g : World e → A) (f : A → App e B) → ((a : A) → IsSteady (f a)) → IsSteady (λ w. f (g w) w)
  IsSteady-reads g f sf = record {
    defined = λ w. (sf (g w)).defined w;
    front = λ w. (sf (g w)).front w;
    same = λ w. (sf (g w)).same w;
  }

  pub IsSteady-Option :
      (o : Option A) (m : App e B) (f : A → App e B)
      → IsSteady m
      → ((a : A) → IsSteady (f a))
      → IsSteady (elim o [ none ↦ m | some a ↦ f a ])
  IsSteady-Option none m f sm sf = sm
  IsSteady-Option (some a) m f sm sf = sf a

module _ {e : External} where
  pub IsSteady-now : IsSteady (now {e = e})
  unfolding now
  IsSteady-now = IsSteady-quiet _ (λ w. tt) (λ w. refl)

  pub IsSteady-roll : IsSteady (roll {e = e})
  unfolding roll
  IsSteady-roll = IsSteady-quiet _ (λ w. tt) (λ w. refl)

pub ruleset steady_rules = (
  IsSteady-pure, IsSteady-raise, IsSteady-or_raise, IsSteady-json_call, IsSteady-if, IsSteady-bind,
  IsSteady-Option, IsSteady-now, IsSteady-roll,
)

-- A request handler that answers every request with a property, on a pool with a connection at
-- hand, and leaves the same connections there.
pub record IsAnswering {e : External} {Q R : Type 0} (P : Q → Type 0) (h : Q → App e R)
    : Type 0 where
  pub answers :
      (q : Q) → P q → (w : World e) → HasFront w.pool.connections → (r : R) × ((h q w).0 ≡ ok r)
  pub steady : (q : Q) → P q → IsSteady (h q)
