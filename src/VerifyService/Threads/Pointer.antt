-- ===== src/VerifyService/Threads/Pointer.antt =====
-- When the pointer of `verifyCode` is still good.
use hm_music_player_back_end.Prelude.{
  ℤ, lt_int, String, ◌≡◌, refl, ap, Bool, Bool-cases, inl, inr, true, false, Option, none, some,
  List, [], ◌∷◌, ◌==◌, ◌∙◌, if◌then◌else◌,
}
use hm_music_player_back_end.Prelude.Dict.{find, assign, find-assign}
use hm_music_player_back_end.Prelude.Effect.{Result, ok, fault}
use hm_music_player_back_end.VerifyService.{VerifyInfo, Codes, accepts, accepts_found, cleanup}
use hm_music_player_back_end.VerifyService.Table.{
  Distinct, assign-Distinct, cleanup_lem, find-cleanup,
}
use hm_music_player_back_end.VerifyService.Threads.{
  Other, sweeps, stores, has_entry, on_other, on_others, read_info, verify_code_among,
}

-- What becomes of the entry that was found: it is erased by the first sweep after its expiry, and
-- gets another value by each code that is sent to its address.
abbrev pub fate : String → List Other → VerifyInfo → Option VerifyInfo
fate email [] info = some info
fate email (sweeps t ∷ os) info = if lt_int info.expire_time t then none else fate email os info
fate email (stores k v ∷ os) info = fate email os (if k == email then v else info)

abbrev pub judged : Option VerifyInfo → ℤ → String → String → Result Bool
judged none now action code = fault
judged (some info) now action code = ok (accepts info now action code)

on_others-lost :
    (email : String) (os : List Other) (codes : Codes)
    → (on_others email os (codes, false)).1 ≡ false
unfolding on_others on_other
on_others-lost email [] codes = refl
on_others-lost email (sweeps t ∷ os) codes = on_others-lost email os (cleanup t codes).0
on_others-lost email (stores k v ∷ os) codes = on_others-lost email os (assign k v codes)

on_other-swept :
    (email : String) (t : ℤ) (codes : Codes) (o : Option VerifyInfo)
    → find email (cleanup t codes).0 ≡ o
    → on_other email (sweeps t) (codes, true) ≡ ((cleanup t codes).0, has_entry o)
unfolding on_other
on_other-swept email t codes o h = ap (λ p. ((cleanup t codes).0, has_entry p)) h

on_other-stored :
    (email k : String) (v : VerifyInfo) (codes : Codes)
    → on_other email (stores k v) (codes, true) ≡ (assign k v codes, true)
unfolding on_other
on_other-stored email k v codes = refl

-- What is read after the others, from a state of the table and the pointer.
abbrev reading : List Other → ℤ → String → String → String → Codes × Bool → Result Bool
reading os now email action code s =
    read_info (on_others email os s).1 (on_others email os s).0 now email action code

read_info-fate :
    (os : List Other) (codes : Codes) (info : VerifyInfo) (now : ℤ) (email action code : String)
    → Distinct codes
    → find email codes ≡ some info
    → reading os now email action code (codes, true) ≡ judged (fate email os info) now action code
unfolding on_others has_entry read_info accepts_found
read_info-fate [] codes info now email action code d f = rw f refl
read_info-fate (sweeps t ∷ os) codes info now email action code d f =
    let g = find-cleanup t email codes info d f in
    elim (Bool-cases (lt_int info.expire_time t)) [
      | inl y ↦
          let h : find email (cleanup t codes).0 ≡ none = g ∙ rw y refl in
          ap (reading os now email action code) (on_other-swept email t codes none h)
          ∙ rw (y, on_others-lost email os (cleanup t codes).0) refl
      | inr n ↦
          let h : find email (cleanup t codes).0 ≡ some info = g ∙ rw n refl in
          let rest : Distinct (cleanup t codes).0 = (cleanup_lem t codes d).2 in
          ap (reading os now email action code) (on_other-swept email t codes (some info) h)
          ∙ rw n (read_info-fate os (cleanup t codes).0 info now email action code rest h)
    ]
read_info-fate (stores k v ∷ os) codes info now email action code d f =
    let g = find-assign k email v codes in
    let rest = assign-Distinct k v codes d in
    elim (Bool-cases (k == email)) [
      | inl y ↦
          let h : find email (assign k v codes) ≡ some v = g ∙ rw y refl in
          ap (reading os now email action code) (on_other-stored email k v codes)
          ∙ rw y (read_info-fate os (assign k v codes) v now email action code rest h)
      | inr n ↦
          let h : find email (assign k v codes) ≡ some info = g ∙ rw n f in
          ap (reading os now email action code) (on_other-stored email k v codes)
          ∙ rw n (read_info-fate os (assign k v codes) info now email action code rest h)
    ]

-- Whatever codes are sent and clean-ups done by other threads between the two halves of
-- verifyCode, in a table of distinct addresses with an entry for the address: it goes through a
-- dangling pointer exactly where a clean-up after the expiry that the entry then has comes
-- between, and else judges by the code, action and expiry that were last written for the address.
pub verify_code_among_lem :
    (others : List Other) (codes : Codes) (info : VerifyInfo) (now : ℤ) (email action code : String)
    → Distinct codes
    → find email codes ≡ some info
    → verify_code_among others codes now email action code
      ≡ judged (fate email others info) now action code
unfolding verify_code_among
verify_code_among_lem others codes info now email action code d f =
    rw f (read_info-fate others codes info now email action code d f)
