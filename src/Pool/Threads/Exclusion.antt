-- ===== src/Pool/Threads/Exclusion.antt =====
-- No connection is lent to two threads at once, and none is lost.
use hm_music_player_back_end.Prelude.{
  ℕ, suc, ◌+◌, String, ◌≡◌, refl, ◌∙◌, ◌⊎◌, inl, inr, Option, none, some, List, [], ◌∷◌, ◌++◌,
  length, nat_eq, if◌then◌else◌, arith,
}
use hm_music_player_back_end.Pool.{Pool, take_connection, release_connection}
use hm_music_player_back_end.Pool.Threads.{
  Sharing, Step, gets, times_out, gives, Reach, here, later,
}

abbrev pub count : ℕ → List ℕ → ℕ
count c [] = 0
count c (d ∷ cs) = if nat_eq d c then suc (count c cs) else count c cs

-- The threads that hold a connection.
abbrev pub holders : ℕ → List (ℕ × ℕ) → List ℕ
holders c [] = []
holders c ((thread, d) ∷ held) =
    let rest = holders c held in if nat_eq d c then thread ∷ rest else rest

-- A pool that no threads but those of the system use.
abbrev pub fresh : List ℕ → String → Sharing
fresh connections db_name = record {
  pool = record { connections = connections; arrivals = []; db_name = db_name };
  held = [];
}

record IsShared (c n : ℕ) (s : Sharing) : Type 0 where
  pub closed : s.pool.arrivals ≡ []
  pub total : length (holders c s.held) + count c s.pool.connections ≡ n

count-append : (c : ℕ) (xs ys : List ℕ) → count c (xs ++ ys) ≡ count c xs + count c ys
count-append c [] ys = omega arith
count-append c (x ∷ xs) ys = ground (arith, count-append c xs ys)

holders-middle :
    (c thread d : ℕ) (before after : List (ℕ × ℕ))
    → length (holders c (before ++ (thread, d) ∷ after))
      ≡ count c (d ∷ []) + length (holders c (before ++ after))
holders-middle c thread d [] after = ground arith
holders-middle c thread d ((u, k) ∷ before) after =
    ground (arith, holders-middle c thread d before after)

take_closed :
    (p q : Pool) (o : Option ℕ)
    → p.arrivals ≡ []
    → take_connection p ≡ (o, q)
    → ((o ≡ none) × (q ≡ p))
      ⊎ ((c : ℕ) × (o ≡ some c) × (p.connections ≡ c ∷ q.connections) × (q.arrivals ≡ []))
unfolding take_connection
take_closed p q o h e = ground arith

Step-IsShared : (c n : ℕ) (s t : Sharing) → Step s t → IsShared c n s → IsShared c n t
unfolding release_connection
Step-IsShared c n s _ (gets thread d _ q e) h =
    let t = take_closed s.pool q (some d) h.closed e in grind arith
Step-IsShared c n s _ (times_out _ q e) h =
    let t = take_closed s.pool q none h.closed e in grind arith
Step-IsShared c n s _ (gives thread d _ before after e) h =
    let p = holders-middle c thread d before after in
    let k = count-append c s.pool.connections (d ∷ []) in
    let g : length (holders c s.held) ≡ count c (d ∷ []) + length (holders c (before ++ after)) =
      rw e p in
    record { closed = h.closed; total = omega (arith, h.total, p, k, g) }

Reach-IsShared :
    (connections : List ℕ) (db_name : String) (c : ℕ) (s : Sharing)
    → Reach (fresh connections db_name) s
    → IsShared c (count c connections) s
Reach-IsShared connections db_name c _ here = record { closed = refl; total = omega arith }
Reach-IsShared connections db_name c _ (later r step) =
    Step-IsShared c _ _ _ step (Reach-IsShared connections db_name c _ r)

lent_once :
    (n : ℕ) (threads : List ℕ)
    → length threads + n ≡ 1
    → ((n ≡ 1) × (threads ≡ [])) ⊎ ((thread : ℕ) × (n ≡ 0) × (threads ≡ thread ∷ []))
lent_once n [] h = inl (omega arith, refl)
lent_once n (thread ∷ []) h = inr (thread, omega arith, refl)
lent_once n (thread ∷ other ∷ threads) h = absurd (omega arith)

-- Among any threads that get connections, run into the time limit and give back what they hold, in
-- any order: a connection that the pool has once at the start is at each moment either once in the
-- pool and held by no thread, or not in the pool and held by exactly one.
pub lent_exclusively :
    (connections : List ℕ) (db_name : String) (c : ℕ) (s : Sharing)
    → count c connections ≡ 1
    → Reach (fresh connections db_name) s
    → ((count c s.pool.connections ≡ 1) × (holders c s.held ≡ []))
      ⊎ ((thread : ℕ) × (count c s.pool.connections ≡ 0) × (holders c s.held ≡ thread ∷ []))
lent_exclusively connections db_name c s once r =
    let h = Reach-IsShared connections db_name c s r in lent_once _ _ (h.total ∙ once)
