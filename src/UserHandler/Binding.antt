-- ===== src/UserHandler/Binding.antt =====
-- A platform account that is bound, followed by a request for the profile.
use hm_music_player_back_end.Prelude.{
  suc, ℤ, int_eq, String, ◌≡◌, refl, sym, ap, ◌∙◌, Bool, Bool-cases, inl, inr, true, ◌||◌, ◌==◌,
  some, [], map, if◌then◌else◌, arith,
}
use hm_music_player_back_end.Prelude.Effect.{ok}
use hm_music_player_back_end.External.{External}
use hm_music_player_back_end.App.{World}
use hm_music_player_back_end.App.Steady.{HasFront}
use hm_music_player_back_end.Http.{
  HttpRequest, success, response, DumpsAscii, respond, ascii_init, ascii_inits, is_ascii,
}
use hm_music_player_back_end.Jwt.{JwtUtil}
use hm_music_player_back_end.UserDao.{update_qq_id, update_netease_id}
use hm_music_player_back_end.UserDao.Table.{UserTable, Account}
use hm_music_player_back_end.UserDao.Rows.{first-keep-changed}
use hm_music_player_back_end.UserDao.Connection.{call, sets_qq_id, sets_netease_id}
use hm_music_player_back_end.UserDao.Refinement.{call-Conforms}
use hm_music_player_back_end.UserHandler.{catch_errors, field, message_and}
use hm_music_player_back_end.UserHandler.Account.{
  platform_bound, bind_qq, bind_netease, bind_account, bind_json, bind_platform,
  handle_bind_platform, handle_get_profile,
}
use hm_music_player_back_end.UserHandler.Authorized.{
  IsAuthorized, verify_token-accepted, claimed_id-accepted,
}
use hm_music_player_back_end.UserHandler.Profile.{holder, handle_get_profile_lem}
use hm_music_player_back_end.UserHandler.Shown.{answer_of}

-- A body with the two fields.
pub record IsBinding (e : External) (body platform platform_id : String) : Type 0 where
  pub json : e.json.Json
  pub parses : e.json.parse body ≡ some json
  pub has_platform : e.json.contains "platform" json ≡ true
  pub has_id : e.json.contains "platform_id" json ≡ true
  pub reads_platform : e.json.get_string "platform" json ≡ some platform
  pub reads_id : e.json.get_string "platform_id" json ≡ some platform_id

-- An account, bound to one of QQ or of NetEase where it has the id.
abbrev bound_in : Bool → ℤ → String → Account → Account
bound_in is_qq id platform_id a =
    if int_eq a.id id
    then if is_qq then record a { qq_id = platform_id } else record a { netease_id = platform_id }
    else a

abbrev pub bound : ℤ → String → String → Account → Account
bound id platform = bound_in (platform == "qq") id

module _ {e : External} (dumps : DumpsAscii e) (t : UserTable e.sql) (util : JwtUtil)
    (req : HttpRequest) {platform platform_id : String}
    (asked : IsBinding e req.body platform platform_id) {id : ℤ} (w : World e)
    (f : HasFront w.pool.connections) (h : IsAuthorized util req.authorization id w) where
  open t use {Stored, account, rows}

  handle_bind_platform_accepted :
      (platform == "qq") || (platform == "netease") ≡ true
      → t.fits 50 platform_id ≡ true
      → (body : String) × ((handle_bind_platform util req w).0
          ≡ ok (response success req.version body))
        × (map account (rows (handle_bind_platform util req w).1.db)
            ≡ map (bound id platform platform_id) (map account (rows w.db)))
  unfolding handle_bind_platform catch_errors bind_platform bind_json bind_account bind_qq
      bind_netease platform_bound field respond call
  handle_bind_platform_accepted known fit =
      let (c, cs, front) = f in
      let v : World e = record w { reads = suc (suc w.reads) } in
      let (body, b) =
        dumps (message_and "Platform account bound successfully" [])
          (unfold ascii_init ascii_inits in refl) in
      elim (Bool-cases (platform == "qq")) [
        | inl q ↦
            let (r, updated, (done, changed)) =
              call-Conforms t v c cs front (sets_qq_id id platform_id) fit in
            let run : handle_bind_platform util req w
                ≡ (ok (response success req.version body), (update_qq_id id platform_id v).1) =
              rw
                (
                  verify_token-accepted h,
                  h.named,
                  claimed_id-accepted h v,
                  asked.parses,
                  asked.has_platform,
                  asked.has_id,
                  asked.reads_platform,
                  asked.reads_id,
                  q,
                  updated,
                  done,
                  b,
                )
                refl in
            (
              body,
              ap (λ p. p.0) run,
              rw run (
                  changed
                  ∙ sym (ap (λ b. map (bound_in b id platform_id) (map account (rows w.db))) q)),
            )
        | inr q ↦
            let n : platform == "netease" ≡ true = ground arith in
            let (r, updated, (done, changed)) =
              call-Conforms t v c cs front (sets_netease_id id platform_id) fit in
            let run : handle_bind_platform util req w
                ≡ (ok (response success req.version body), (update_netease_id id platform_id v).1) =
              rw
                (
                  verify_token-accepted h,
                  h.named,
                  claimed_id-accepted h v,
                  asked.parses,
                  asked.has_platform,
                  asked.has_id,
                  asked.reads_platform,
                  asked.reads_id,
                  q,
                  n,
                  updated,
                  done,
                  b,
                )
                refl in
            (
              body,
              ap (λ p. p.0) run,
              rw run (
                  changed
                  ∙ sym (ap (λ b. map (bound_in b id platform_id) (map account (rows w.db))) q)),
            )
      ]

  -- Over a table of users that keeps MySQL's laws, with a connection at hand each time: a request
  -- with a valid token to bind an account of QQ or of NetEase, whose id fits its column, is
  -- answered by 200, and a later request for the profile with a valid token of the same user,
  -- while the database stays as it is, is answered by 200 with the JSON of the account, which has
  -- the id of that platform and is else the same. Conditions: the times in the table are ASCII,
  -- and ASCII texts and that JSON can be dumped.
  pub bind_then_profile :
      (req' : HttpRequest) (w' : World e) (f' : HasFront w'.pool.connections)
      → w'.db ≡ (handle_bind_platform util req w).1.db
      → IsAuthorized util req'.authorization id w'
      → (s : Stored) → holder t util id w ≡ some s
      → (platform == "qq") || (platform == "netease") ≡ true
      → t.fits 50 platform_id ≡ true
      → ((create_at : String)
          → is_ascii create_at ≡ true
          → (body : String) × (e.json.dump (
                answer_of "User profile retrieved successfully"
                  (bound id platform platform_id (account s))
                  create_at)
              ≡ some body))
      → ((r : Stored) → is_ascii (t.create_at r) ≡ true)
      → (body body' create_at : String) × ((handle_bind_platform util req w).0
          ≡ ok (response success req.version body))
        × (e.json.dump (
              answer_of "User profile retrieved successfully"
                (bound id platform platform_id (account s))
                create_at)
            ≡ some body')
        × ((handle_get_profile util req' w').0 ≡ ok (response success req'.version body'))
  bind_then_profile req' w' f' same h' s held known fit shows times =
      let (body, told, changed) = handle_bind_platform_accepted known fit in
      let after : map account (rows w'.db)
          ≡ map (bound id platform platform_id) (map account (rows w.db)) =
        ap (λ d. map account (rows d)) same ∙ changed in
      let (r, held', new) =
        first-keep-changed account (λ a. int_eq a.id id) (bound id platform platform_id)
          (λ a. ground arith) (rows w.db) (rows w'.db) s after held in
      let (body', shown) = shows (t.create_at r) (times r) in
      (
        body,
        body',
        t.create_at r,
        told,
        shown,
        handle_get_profile_lem t util req' w' f' h' r body' held' (rw new shown),
      )
