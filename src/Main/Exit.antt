-- ===== src/Main/Exit.antt =====
-- When the program ends, and with which status.
use hm_music_player_back_end.Prelude.{
  ℕ, suc, pos, true, false, ◌≡◌, refl, ◌⊎◌, inl, inr, Option, none, some, List, String,
}
use hm_music_player_back_end.Prelude.Effect.{Exception, Result, ok, throw, fault}
use hm_music_player_back_end.External.{External, Asio}
use hm_music_player_back_end.Config.{Config}
use hm_music_player_back_end.Config.Loading.{is_loadable, load_from_file_lem}
use hm_music_player_back_end.Config.Sections.{server_of}
use hm_music_player_back_end.App.{World}
use hm_music_player_back_end.Server.{Server, Event, new_server, start, run_loop}
use hm_music_player_back_end.Server.Lifecycle.{
  any_signalled, Ends, start_returns, new_server-Made, run_loop_lem,
}
use hm_music_player_back_end.Main.{exit_code, running, serving, loaded, main}

-- A status that tells of an end, with the signals that came.
abbrev pub ExitsOnSignal : Option ℕ → List (List Event) → Type 0
ExitsOnSignal r turns =
    ((r ≡ some 0) × (any_signalled turns ≡ true)) ⊎ ((r ≡ none) × (any_signalled turns ≡ false))

exit_code-Ends :
    (r : Result (Option Server)) (turns : List (List Event))
    → Ends r turns
    → ExitsOnSignal (exit_code r) turns
unfolding exit_code
exit_code-Ends r turns (inl (s, q, t, o, y)) = rw q (inl (refl, y))
exit_code-Ends r turns (inr (q, n)) = rw q (inr (refl, n))

module _ {e : External} where
  running-Ends :
      (turns : List (List Event)) (r : Result (Unit {0})) (s : Server) (w : World e)
      → r ≡ ok tt
      → Ends (run_loop turns s w).0 turns
      → ExitsOnSignal (running turns (r, s) w).0 turns
  unfolding running
  running-Ends turns (ok u) s w k h = exit_code-Ends _ turns h
  running-Ends turns (throw x) s w k h = cc
  running-Ends turns fault s w k h = cc

  serving_up :
      (a : Asio) (turns : List (List Event)) (ip : String) (port n : ℕ) (s : Server) (w : World e)
      → new_server a ip port (pos (suc n)) ≡ ok s
      → ExitsOnSignal (serving turns (ok s) w).0 turns
  unfolding serving
  serving_up a turns ip port n s w m =
      running-Ends turns (start s).0 (start s).1 w (start_returns a ip port n s m)
        (run_loop_lem a ip port n s turns w m)

  -- Where a file of settings that loads asks for one thread or more: main ends with status 1 and
  -- does nothing else, as the file does not load; or with status 1, as the server's constructor
  -- throws for the address of the file; or it ends with status 0 where a signal comes, and does
  -- not end where none comes.
  pub main_lem :
      (a : Asio) (arrivals : List (List ℕ)) (turns : List (List Event)) (c : Config) (w : World e)
      (n : ℕ)
      → ((j : e.json.Json)
          → e.json.parse_first (e.file.read "config.json" w.disk) ≡ some j
          → is_loadable e "config.json" w.disk ≡ true
          → (server_of e (e.json.at "server" j)).threads ≡ pos (suc n))
      → ((main a arrivals turns c w ≡ (some 1, w)) × (is_loadable e "config.json" w.disk ≡ false))
        ⊎ ((j : e.json.Json) × (e.json.parse_first (e.file.read "config.json" w.disk) ≡ some j)
            × (((x : Exception) × ((main a arrivals turns c w).0 ≡ some 1)
                  × (new_server a
                        (server_of e (e.json.at "server" j)).host
                        (server_of e (e.json.at "server" j)).port
                        (pos (suc n))
                      ≡ throw x))
                ⊎ ExitsOnSignal (main a arrivals turns c w).0 turns))
  unfolding main loaded
  main_lem a arrivals turns c w n h = elim (load_from_file_lem e "config.json" w.disk c) [
    | inl (r, q) ↦ inl (rw r refl, q)
    | inr (j, y, l, q) ↦
        let host = (server_of e (e.json.at "server" j)).host in
        let port = (server_of e (e.json.at "server" j)).port in
        inr (
          j,
          y,
          elim (new_server-Made a host port (pos (suc n))) [
            | inl (s, m) ↦ inr (rw l (rw (h j y q) (rw m (serving_up a turns host port n s _ m))))
            | inr (x, m) ↦ inl (x, rw l (rw (h j y q) (rw m refl)), m)
          ],
        )
  ]
