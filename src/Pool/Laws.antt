-- ===== src/Pool/Laws.antt =====
-- Laws of the pool of connections.
use mathlib.Core.List.{flatten, Perm, append_assoc, perm_middle}
use hm_music_player_back_end.Prelude.{
  ℕ, String, ◌≡◌, refl, ◌⊎◌, inl, inr, Option, none, some, List, [], ◌∷◌, ◌++◌, arith,
}
use hm_music_player_back_end.Pool.{Pool, take_connection, release_connection}

-- The connections in the pool and those that other threads are going to give back.
abbrev pub owned : Pool → List ℕ
owned p = p.connections ++ flatten p.arrivals

-- A pool with a connection at hand lends the one that lay there longest, without waiting.
pub take_connection_front :
    (p : Pool) (c : ℕ) (cs : List ℕ)
    → p.connections ≡ c ∷ cs
    → take_connection p ≡ (some c, record p { connections = cs })
unfolding take_connection
take_connection_front p c cs e = ground arith

-- The outcomes of a call: a connection is taken out, or there is none and no connection is lost.
abbrev pub Taken : Pool → Option ℕ × Pool → Type 0
Taken p r =
    ((c : ℕ) × (q : Pool) × (r ≡ (some c, q)) × (owned p ≡ c ∷ owned q))
    ⊎ ((q : Pool) × (r ≡ (none, q)) × (owned p ≡ owned q))

take_waited :
    (later : List (List ℕ)) (name : String)
    → Taken
        (record { connections = []; arrivals = later; db_name = name })
        (take_connection (record { connections = []; arrivals = later; db_name = name }))
unfolding take_connection flatten
take_waited [] name = inr (_, refl, refl)
take_waited ([] ∷ later) name = inr (_, refl, refl)
take_waited ((c ∷ cs) ∷ later) name = inl (c, _, refl, refl)

take_at :
    (cs : List ℕ) (later : List (List ℕ)) (name : String)
    → Taken
        (record { connections = cs; arrivals = later; db_name = name })
        (take_connection (record { connections = cs; arrivals = later; db_name = name }))
unfolding take_connection
take_at [] later name = take_waited later name
take_at (c ∷ cs) later name = inl (c, _, refl, refl)

pub take_connection-Taken : (p : Pool) → Taken p (take_connection p)
take_connection-Taken p = take_at p.connections p.arrivals p.db_name

pub release_connection-perm :
    (c : ℕ) (p : Pool) → Perm (owned (release_connection c p)) (c ∷ owned p)
unfolding release_connection
release_connection-perm c p = rw append_assoc (perm_middle p.connections (flatten p.arrivals))

-- No connection is at hand, and none comes back in time.
pub record IsExhausted (p : Pool) : Type 0 where
  pub empty : p.connections ≡ []
  pub silent : (p.arrivals ≡ []) ⊎ ((later : List (List ℕ)) × (p.arrivals ≡ [] ∷ later))

pub take_connection_exhausted :
    (p : Pool) → IsExhausted p → take_connection p ≡ (none, (take_connection p).1)
unfolding take_connection
take_connection_exhausted p h = ground arith
