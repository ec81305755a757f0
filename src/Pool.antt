-- ===== src/Pool.antt =====
-- src/database/DBManager.{h,cpp}: the pool of connections. A connection is known by a number.
-- `m_driver` is the connector of `External`; the address is used by the constructor only, in
-- Pool/Opening.antt.
pub mod Laws
pub mod Opening
pub mod Threads
use hm_music_player_back_end.Prelude.{ℕ, String, Option, none, some, List, [], ◌∷◌, ◌++◌}

-- `arrivals` holds, for each wait of `m_cv.wait_for` to come, the connections that other threads
-- give back before it ends; an empty list is a wait that runs into its time limit.
pub record Pool : Type 0 where
  pub connections : List ℕ
  pub arrivals : List (List ℕ)
  pub db_name : String

-- `wait_for` on an empty deque: the other threads' connections are there when the lock is back.
wait : List (List ℕ) → Pool → Pool
wait [] p = p
wait (cs ∷ rest) p = record p { connections = cs; arrivals = rest }

wait_if_empty : List ℕ → Pool → Pool
unfolding wait
wait_if_empty [] p = wait p.arrivals p
wait_if_empty (c ∷ cs) p = p

pop_front : List ℕ → Pool → Option ℕ × Pool
pop_front [] p = (none, p)
pop_front (c ∷ cs) p = (some c, record p { connections = cs })

-- The locked part of `getConnection`; `none` is a null pointer.
unfoldable pub take_connection : Pool → Option ℕ × Pool
unfolding wait_if_empty pop_front
take_connection p = let q = wait_if_empty p.connections p in pop_front q.connections q

unfoldable pub release_connection : ℕ → Pool → Pool
release_connection c p = record p { connections = p.connections ++ c ∷ [] }
