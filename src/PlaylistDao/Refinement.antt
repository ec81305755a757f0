-- ===== src/PlaylistDao/Refinement.antt =====
-- The methods of PlaylistDAO keep to what they promise.
use hm_music_player_back_end.Prelude.{
  ℕ, suc, ◌+◌, ◌^◌, ◌<◌, ◌≤◌, int_eq, String, ◌≡◌, refl, ap, Bool, Bool-cases, inl, inr, true, not,
  List, [], ◌∷◌, length, length-append, All, arith,
}
use hm_music_player_back_end.Prelude.Effect.{ok}
use hm_music_player_back_end.External.{External}
use hm_music_player_back_end.App.{World}
use hm_music_player_back_end.App.Steady.{HasFront, rotated_front}
use hm_music_player_back_end.App.Connection.{inside, rotated}
use hm_music_player_back_end.UserDao.Table.{any}
use hm_music_player_back_end.UserDao.Rows.{length-keep}
use hm_music_player_back_end.PlaylistDao.Connection.{
  PlaylistCall, PlaylistReply, creates, updates, finds_id, finds_user, deletes, adds, removes,
  lists, counts, playlist_call,
}
use hm_music_player_back_end.PlaylistDao.Library.{Library, within, has_id, matches}
use hm_music_player_back_end.PlaylistDao.Table.{PlaylistTable}
use hm_music_player_back_end.PlaylistDao.Spec.{texts_fit, Allowed}
use hm_music_player_back_end.PlaylistDao.Methods.{library_inside, call-Done}

-- A call adds one song at most.
Allowed-grows :
    (same : String → String → Bool) (fits : ℕ → String → Bool) (m : PlaylistCall)
    (before after : Library) (r : PlaylistReply m)
    → Allowed same fits m before r after
    → length after.entries ≤ suc (length before.entries)
Allowed-grows same fits (creates playlist) before after r h =
    elim (Bool-cases (any (int_eq playlist.user_id) before.users)) [
      | inl k ↦ let (told, i, fresh, grown) = rw k at h in rw grown (omega arith)
      | inr k ↦ let g = rw k at h in rw g.1 (omega arith)
    ]
Allowed-grows same fits (adds i song) before after r h =
    elim (Bool-cases (any (matches same i song.song_id song.source) before.entries)) [
      | inl q ↦ let g = rw q at h in rw g.1 (omega arith)
      | inr q ↦ elim (Bool-cases (any (has_id i) before.lists)) [
        | inl k ↦
            let (done, id, added_at, grown) = rw (q, k) at h in
            rw grown (
              omega (
                arith,
                length-append before.entries (
                    record { playlist_id = i; song = record song { id = id; added_at = added_at } }
                    ∷ []),
              ))
        | inr k ↦ let g = rw (q, k) at h in rw g.1 (omega arith)
      ]
    ]
Allowed-grows same fits (removes i song_id source) before after r (told, gone) =
    rw gone (omega (arith, length-keep (λ x. not (matches same i song_id source x)) before.entries))
Allowed-grows same fits (deletes i) before after r (told, gone) =
    rw gone (omega (arith, length-keep (λ x. not (within i x)) before.entries))
Allowed-grows same fits (updates playlist) before after r (changed, low, high) =
    rw changed (omega arith)
Allowed-grows same fits (finds_id i) before after r (told, stays) = rw stays (omega arith)
Allowed-grows same fits (finds_user i) before after r (told, stays) = rw stays (omega arith)
Allowed-grows same fits (lists i) before after r (told, stays) = rw stays (omega arith)
Allowed-grows same fits (counts i) before after r (told, stays) = rw stays (omega arith)

module _ {e : External} (t : PlaylistTable e.sql) where
  -- A run of calls, each of which returns with an allowed outcome.
  abbrev pub Conform : List PlaylistCall → World e → Type 0
  Conform [] w = Unit {0}
  Conform (m ∷ ms) w =
      ((r : PlaylistReply m) × ((playlist_call m w).0 ≡ ok r)
        × Allowed t.same t.fits m (t.library w.db) r (t.library (playlist_call m w).1.db))
      × Conform ms (playlist_call m w).1

  -- Over tables of playlists and songs that keep MySQL's laws, where executeQuery(sql) on a
  -- PreparedStatement throws, with a connection at hand and where the songs and the calls are
  -- fewer than 2^31: each call in a run of the methods of PlaylistDAO, with texts that fit their
  -- columns, returns what the specification on the playlists and their songs allows, and leaves
  -- those that it allows; there createPlaylist for a user who exists adds the playlist and gives
  -- false.
  pub playlist_calls_refine :
      (ms : List PlaylistCall) (w : World e) (f : HasFront w.pool.connections)
      → All (λ m. texts_fit t.same t.fits m ≡ true) ms
      → length (t.library w.db).entries + length ms < 2 ^ 31
      → Conform ms w
  playlist_calls_refine [] w f fit few = tt
  playlist_calls_refine (m ∷ ms) w (c, cs, front) fit few =
      let size : length (t.library (inside c cs w).db).entries ≡ length (t.library w.db).entries =
        ap (λ l. length l.entries) (library_inside t w c cs front) in
      let (r, d, run, allowed) = call-Done t w c cs front m fit.0 (omega arith) in
      let grown = Allowed-grows t.same t.fits m (t.library w.db) (t.library d) r allowed in
      let small : length (t.library d).entries + length ms < 2 ^ 31 = omega (arith, grown, few) in
      (
        (r, rw run refl, rw run allowed),
        rw run (playlist_calls_refine ms (rotated c cs w d) (rotated_front c cs) fit.1 small),
      )
