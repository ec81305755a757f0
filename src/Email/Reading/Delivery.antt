-- ===== src/Email/Reading/Delivery.antt =====
-- What the calls of the callback hand over.
use Prim.Native.Nat.{min}
use hm_music_player_back_end.Prelude.{
  ℕ, zero, suc, ◌-◌, ◌*◌, ◌%◌, ◌^◌, ◌≤◌, ◌<◌, ◌≡◌, refl, List, [], ◌∷◌, ◌++◌, ap, All, length, ◌∙◌,
  arith,
}
use hm_music_player_back_end.Email.Reading.{take, drop, EmailData, read_callback}

module _ {ℓ} {A : Type ℓ} where
  -- The calls of `readCallback` with these sizes: what they copy, one after another.
  abbrev pub deliver : List (ℕ × ℕ) → EmailData A → List A × EmailData A
  deliver [] d = ([], d)
  deliver ((size, nmemb) ∷ calls) d =
      let (copied, n, later) = read_callback size nmemb d in
      let (rest, last) = deliver calls later in (copied ++ rest, last)

abbrev pub HasRoom : ℕ × ℕ → Type 0
HasRoom (size, nmemb) = 0 < (size * nmemb) % (2 ^ 64)

module _ {ℓ} {A : Type ℓ} where
  abbrev pub remaining : EmailData A → List A
  remaining d = take d.size_left d.bytes

  take_nothing : (n : ℕ) → take {A = A} n [] ≡ []
  take_nothing zero = refl
  take_nothing (suc n) = refl

  take_split : (k n : ℕ) (xs : List A) → k ≤ n → take k xs ++ take (n - k) (drop k xs) ≡ take n xs
  take_split zero n xs h = grind arith
  take_split (suc k) zero xs h = absurd (omega arith)
  take_split (suc k) (suc n) [] h = take_nothing (suc n - suc k)
  take_split (suc k) (suc n) (x ∷ xs) h =
      let e : suc n - suc k ≡ n - k = omega arith in
      rw e (ap (λ l. x ∷ l) (take_split k n xs (omega arith)))

  take_all : (xs ys : List A) → take (length xs) (xs ++ ys) ≡ xs
  take_all [] ys = refl
  take_all (x ∷ xs) ys = ap (λ l. x ∷ l) (take_all xs ys)

  -- A call copies the next bytes, and at least one of those that are left where there is room.
  read_callback_lem :
      (size nmemb : ℕ) (d : EmailData A)
      → ((read_callback size nmemb d).0 ++ remaining (read_callback size nmemb d).2 ≡ remaining d)
        × ((read_callback size nmemb d).2.size_left ≡ d.size_left - (size * nmemb) % (2 ^ 64))
  unfolding read_callback
  read_callback_lem size nmemb d =
      let s =
        take_split (min ((size * nmemb) % (2 ^ 64)) d.size_left) d.size_left d.bytes
          (omega arith) in
      grind arith

  delivers_everything :
      (calls : List (ℕ × ℕ)) (d : EmailData A)
      → All HasRoom calls
      → d.size_left ≤ length calls
      → ((deliver calls d).0 ≡ remaining d) × ((deliver calls d).1.size_left ≡ 0)
  delivers_everything [] d r h = let z : d.size_left ≡ 0 = omega arith in (rw z refl, z)
  delivers_everything ((size, nmemb) ∷ calls) d r h =
      let (s, n) = read_callback_lem size nmemb d in
      let (k, z) = delivers_everything calls (read_callback size nmemb d).2 r.1 (omega arith) in
      (ap (λ l. (read_callback size nmemb d).0 ++ l) k ∙ s, z)

  -- Calls of readCallback with room for a byte or more each, as many as the text has bytes, hand
  -- over the text, whole and in order and nothing that follows it in the memory, and the next call
  -- returns 0.
  pub read_callback-deliver :
      (content after : List A) (calls : List (ℕ × ℕ)) (size nmemb : ℕ)
      → All HasRoom calls
      → length content ≤ length calls
      → ((deliver calls (record { bytes = content ++ after; size_left = length content })).0
          ≡ content)
        × ((read_callback size nmemb
              (deliver calls (record { bytes = content ++ after; size_left = length content })).1).1
            ≡ 0)
  unfolding read_callback
  read_callback-deliver content after calls size nmemb r h =
      let (k, z) =
        delivers_everything calls (record { bytes = content ++ after; size_left = length content })
          r h in
      (k ∙ take_all content after, grind arith)
