-- ===== src/Examples/Parts.antt =====
-- The theorems on the parts below the handlers at concrete inputs.
use mathlib.Core.List.{Perm}
use hm_music_player_back_end.Prelude.{
  ℕ, ℤ, pos, inl, String, ◌+◌, ◌≡◌, ◌↔◌, refl, ◌⊎◌, Bool, false, true, none, [], ◌∷◌, All, length,
  if◌then◌else◌, ◌==◌, arith,
}
use hm_music_player_back_end.Prelude.Effect.{ok, fault}
use hm_music_player_back_end.Models.{User, no_user, Playlist}
use hm_music_player_back_end.PlaylistDao.Connection.{
  playlist_call, PlaylistReply, finds_user, playlist_call_returns, playlist_call_conserves,
}
use hm_music_player_back_end.Password.{hash_password, verify_password}
use hm_music_player_back_end.Password.Digests.{verify_password_lem}
use hm_music_player_back_end.Pool.Laws.{owned}
use hm_music_player_back_end.App.Connection.{rotated}
use hm_music_player_back_end.Http.{get, not_found, build_error_response}
use hm_music_player_back_end.Jwt.{verify_token}
use hm_music_player_back_end.Jwt.Tokens.{Verified, verify_token_lem}
use hm_music_player_back_end.Email.Codes.{delivered}
use hm_music_player_back_end.VerifyService.{verifies, accepts, cleanup}
use hm_music_player_back_end.VerifyService.Table.{IsLive, Distinct, cleanup_lem, verifies-cleanup}
use hm_music_player_back_end.VerifyService.Calls.{send_verify_code, verify_code}
use hm_music_player_back_end.VerifyService.Calls.Table.{
  entry, code_mail, send_verify_code_lem, Passes, verify_code_accepts,
}
use hm_music_player_back_end.UserDao.Connection.{
  call, Reply, call_returns, call_conserves, call_exhausted, finds_username,
}
use hm_music_player_back_end.Router.{handle_router, no_routes, add_all, run_found}
use hm_music_player_back_end.Router.Laws.{last_route, handle_router-add_all}
use hm_music_player_back_end.Routes.{routes, setup_routes}
use hm_music_player_back_end.Routes.Laws.{setup_routes_lem}
use hm_music_player_back_end.Examples.Outside.{outside}
use hm_music_player_back_end.Examples.World.{pool, empty_world, ann_world, codes, request, util}

abbrev bob : User
bob = record no_user { username = "bob"; passwd_hash = "p"; email = "b@b.c" }

abbrev mix : Playlist
mix = record {
  id = pos 0;
  user_id = pos 1;
  name = "mix";
  cover = "";
  create_at = "";
  update_at = "";
}

handle_router-add_all_example :
    handle_router (add_all (routes {e = outside} "secret") no_routes) (request get "/" "" "")
    ≡ run_found (last_route get "/" (routes "secret") none) (request get "/" "" "")
handle_router-add_all_example = handle_router-add_all (routes "secret") (request get "/" "" "")

send_verify_code_lem_example :
    let r = send_verify_code "c@b.c" "register" empty_world in
    ((delivered outside (code_mail empty_world "c@b.c") 0 ≡ true)
      × (r.0 ≡ ok true)
      × ((other act code : String) (t : ℤ)
          → verifies r.1.codes t other act code ≡ (
              if "c@b.c" == other
              then accepts (entry empty_world "register") t act code
              else verifies codes t other act code)))
    ⊎ ((delivered outside (code_mail empty_world "c@b.c") 0 ≡ false)
        × (r.0 ≡ ok false)
        × (r.1.codes ≡ codes))
send_verify_code_lem_example = send_verify_code_lem "c@b.c" "register" empty_world

verify_code_accepts_example :
    (b : Bool) × (n : ℕ) × (verify_code "a@b.c" "register" "000000" ann_world
      ≡ (ok b, record ann_world { reads = n }))
    × ((b ≡ true) ↔ Passes codes (pos 0) "a@b.c" "register" "000000")
verify_code_accepts_example = verify_code_accepts "a@b.c" "register" "000000" ann_world

verifies-cleanup_example :
    verifies (cleanup (pos 50) codes).0 (pos 60) "a@b.c" "register" "000000"
    ≡ verifies codes (pos 60) "a@b.c" "register" "000000"
verifies-cleanup_example =
    verifies-cleanup (pos 50) (pos 60) "a@b.c" "register" "000000" codes (refl, tt) refl

cleanup_lem_example :
    All (IsLive (pos 200)) (cleanup (pos 200) codes).0
    × ((cleanup (pos 200) codes).1 + length (cleanup (pos 200) codes).0 ≡ 1)
    × Distinct (cleanup (pos 200) codes).0
cleanup_lem_example = cleanup_lem (pos 200) codes (refl, tt)

verify_token_lem_example : Verified util "1" ann_world (verify_token util "1" ann_world)
verify_token_lem_example = verify_token_lem util "1" ann_world

call_returns_example :
    let r = call (finds_username "ann") ann_world in
    ((a : Reply (finds_username "ann")) × (r.0 ≡ ok a))
    × (r.1 ≡ rotated 1 (2 ∷ []) ann_world r.1.db)
call_returns_example = call_returns (finds_username "ann") ann_world 1 (2 ∷ []) refl

call_conserves_example :
    Perm (owned (call (finds_username "ann") ann_world).1.pool) (owned ann_world.pool)
call_conserves_example = call_conserves (finds_username "ann") ann_world

call_exhausted_example :
    (call (finds_username "ann") (record ann_world { pool = record pool { connections = [] } })).0
    ≡ fault
call_exhausted_example =
    call_exhausted (finds_username "ann")
      (record ann_world { pool = record pool { connections = [] } })
      (record { empty = refl; silent = inl refl })

playlist_call_returns_example :
    let r = playlist_call (finds_user (pos 1)) ann_world in
    ((a : PlaylistReply (finds_user (pos 1))) × (r.0 ≡ ok a))
    × (r.1 ≡ rotated 1 (2 ∷ []) ann_world r.1.db)
playlist_call_returns_example = playlist_call_returns (finds_user (pos 1)) ann_world 1 (2 ∷ []) refl

playlist_call_conserves_example :
    Perm (owned (playlist_call (finds_user (pos 1)) ann_world).1.pool) (owned ann_world.pool)
playlist_call_conserves_example = playlist_call_conserves (finds_user (pos 1)) ann_world

setup_routes_lem_example :
    handle_router
      (setup_routes {e = outside} "secret" no_routes)
      (request get "/history/like" "" "")
    ≡ build_error_response not_found 11 "Not found"
setup_routes_lem_example = setup_routes_lem outside "secret" (request get "/history/like" "" "")

verify_password_lem_example :
    (verify_password outside "q" (hash_password outside "p") ≡ true)
    ↔ (outside.sha256 "q" ≡ outside.sha256 "p")
verify_password_lem_example =
    verify_password_lem outside "q" "p" (omega arith, tt) (omega arith, tt)
