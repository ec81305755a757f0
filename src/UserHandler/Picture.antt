-- ===== src/UserHandler/Picture.antt =====
-- The picture that a user uploads, and the one that is sent back.
use Prim.Native.String.{count}
use hm_music_player_back_end.Prelude.{
  suc, ◌*◌, ℤ, ltb, String, ◌≡◌, refl, ap, ◌∙◌, ◌⊎◌, inl, inr, Bool, true, false, some, [], ◌∷◌,
}
use hm_music_player_back_end.Prelude.Effect.{ok}
use hm_music_player_back_end.External.{External, FileLib, string}
use hm_music_player_back_end.App.{World}
use hm_music_player_back_end.Http.{
  HttpRequest, ascii_init, ascii_inits, success, response, DumpsAscii, pair, respond,
}
use hm_music_player_back_end.Jwt.{JwtUtil}
use hm_music_player_back_end.UserHandler.{avatar_dir, catch_errors, field, message_and}
use hm_music_player_back_end.UserHandler.Authorized.{
  IsAuthorized, verify_token-accepted, claimed_id-accepted,
}
use hm_music_player_back_end.UserHandler.Avatar.{
  avatar_path, file_call, file_exists, open_for_writing, put, make_directory, update_avatar,
  handle_update_avatar, show_avatar, send_avatar, get_avatar, handle_get_avatar,
}

-- What is written to a file that was opened, on a disk with room, is there and can be read again.
pub record FileLaws (f : FileLib) : Type 0 where
  pub written :
      (path content : String) (d : f.Disk)
      → (f.open_out path d).1 ≡ true
      → (f.exists path (f.write path content (f.open_out path d).0) ≡ some true)
        × (f.open_in path (f.write path content (f.open_out path d).0) ≡ true)
        × (f.read path (f.write path content (f.open_out path d).0) ≡ content)

module _ (e : External) where
  open e.file use {Disk, exists, create_directory, open_out, write}

  -- The disk once the directory of pictures is there.
  abbrev pub HasDirectory : Disk → Disk → Type 0
  HasDirectory before after =
      ((exists avatar_dir before ≡ some true) × (after ≡ before))
      ⊎ ((exists avatar_dir before ≡ some false)
          × ((b : Bool) × (create_directory avatar_dir before ≡ (after, some b))))

  -- A body with a picture of at most 1 MB, and a disk that takes it.
  pub record IsUpload (body picture : String) (id : ℤ) (disk : Disk) : Type 0 where
    pub json : e.json.Json
    pub parses : e.json.parse body ≡ some json
    pub has_data : e.json.contains "avatar_data" json ≡ true
    pub reads_data : e.json.get_string "avatar_data" json ≡ some picture
    pub small : ltb (1024 * 1024) (count picture) ≡ false
    pub ready : Disk
    pub directory : HasDirectory disk ready
    pub opens : (open_out (avatar_path id) ready).1 ≡ true

  -- The disk after the upload.
  abbrev pub saved :
      {body picture : String} {id : ℤ} {disk : Disk} → IsUpload body picture id disk → Disk
  saved {picture = picture} {id = id} u =
      write (avatar_path id) picture (open_out (avatar_path id) u.ready).0

module _ {e : External} where
  make_directory_lem :
      (w : World e) (d : e.file.Disk)
      → HasDirectory e w.disk d
      → make_directory w ≡ (ok tt, record w { disk = d })
  unfolding make_directory file_exists file_call
  make_directory_lem w d (inl (there, same)) = rw (there, same) refl
  make_directory_lem w d (inr (missing, (b, made))) = rw (missing, made) refl

  module _ (util : JwtUtil) (req : HttpRequest) {id : ℤ} (w : World e)
      (h : IsAuthorized util req.authorization id w) where
    handle_update_avatar_lem :
        {picture : String} (dumps : DumpsAscii e) (u : IsUpload e req.body picture id w.disk)
        → (body : String) × (handle_update_avatar util req w ≡ (
          ok (response success req.version body),
          record w { disk = saved e u; reads = suc (suc w.reads) },
        ))
    unfolding handle_update_avatar catch_errors update_avatar field open_for_writing put respond
        ascii_init ascii_inits
    handle_update_avatar_lem dumps u =
        let (s, d) = dumps (message_and "Avatar updated successfully" []) refl in
        let v : World e = record w { reads = suc (suc w.reads) } in
        (
          s,
          rw
              (
                verify_token-accepted h,
                h.named,
                u.parses,
                u.has_data,
                u.reads_data,
                u.small,
                claimed_id-accepted h v,
                make_directory_lem v u.ready u.directory,
                u.opens,
                d,
              )
              refl,
        )

    handle_get_avatar_lem :
        (picture body : String)
        → e.file.exists (avatar_path id) w.disk ≡ some true
        → e.file.open_in (avatar_path id) w.disk ≡ true
        → e.file.read (avatar_path id) w.disk ≡ picture
        → e.json.dump
            (message_and "Avatar retrieved successfully" (pair "avatar_data" (string picture) ∷ []))
          ≡ some body
        → (handle_get_avatar util req w).0 ≡ ok (response success req.version body)
    unfolding handle_get_avatar catch_errors get_avatar file_exists file_call send_avatar
        show_avatar respond
    handle_get_avatar_lem picture body there good content dumped =
        let v : World e = record w { reads = suc (suc w.reads) } in
        rw (verify_token-accepted h, h.named, claimed_id-accepted h v, there, good, content, dumped)
          refl

  -- On a file system that keeps what is written to a file that it opened: an upload with a valid
  -- token, of a picture of at most 1 MB, to a disk where the directory of pictures is or can be
  -- made and the file opens, is answered by 200, and a request for the picture with a valid token
  -- of the same user, while the disk stays as it is, is answered by 200 with the same picture.
  -- Conditions: ASCII texts and the picture can be dumped.
  pub avatar_round_trip :
      (laws : FileLaws e.file) (dumps : DumpsAscii e) (util : JwtUtil) (req req' : HttpRequest)
      (picture body' : String) (id : ℤ) (w w' : World e)
      (h : IsAuthorized util req.authorization id w) (u : IsUpload e req.body picture id w.disk)
      → w'.disk ≡ (handle_update_avatar util req w).1.disk
      → IsAuthorized util req'.authorization id w'
      → e.json.dump
          (message_and "Avatar retrieved successfully" (pair "avatar_data" (string picture) ∷ []))
        ≡ some body'
      → (body : String) × (((handle_update_avatar util req w).0
            ≡ ok (response success req.version body))
          × ((handle_get_avatar util req' w').0 ≡ ok (response success req'.version body')))
  avatar_round_trip laws dumps util req req' picture body' id w w' h u same h' dumped =
      let (s, done) = handle_update_avatar_lem util req w h dumps u in
      let f = laws.written (avatar_path id) picture u.ready u.opens in
      let at : w'.disk ≡ saved e u = same ∙ ap (λ p. p.1.disk) done in
      (
        s,
        (
          ap (λ p. p.0) done,
          handle_get_avatar_lem util req' w' h' picture body' (rw at f.0) (rw at f.1) (rw at f.2)
              dumped,
        ),
      )
