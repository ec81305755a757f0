-- ===== src/UserDao/Rows.antt =====
-- Lists of rows, and what the rows are read as.
use hm_music_player_back_end.UserDao.Accounts.{first}
use hm_music_player_back_end.Prelude.{
  Bool-cases, inl, inr, some, ◌∙◌, ℕ, not, true, false, ◌≤◌, ◌≡◌, refl, ap, Bool, ◌||◌, ltb, List,
  [], ◌∷◌, ◌++◌, map, length, arith,
}
use hm_music_player_back_end.UserDao.Table.{keep, any}

-- A test that reads a row only as what it stands for.
module _ {A B : Type 0} (account : A → B) (p : B → Bool) where
  pub any-map : (xs : List A) → any p (map account xs) ≡ any (λ x. p (account x)) xs
  any-map [] = refl
  any-map (x ∷ xs) = ap (λ b. p (account x) || b) (any-map xs)

  pub keep-map :
      (xs : List A) → keep p (map account xs) ≡ map account (keep (λ x. p (account x)) xs)
  keep-map [] = refl
  keep-map (x ∷ xs) = grind (arith, keep-map xs)

pub map-append :
    {A B : Type 0} (f : A → B) (xs ys : List A) → map f (xs ++ ys) ≡ map f xs ++ map f ys
map-append f [] ys = refl
map-append f (x ∷ xs) ys = ap (λ l. f x ∷ l) (map-append f xs ys)

pub map-map :
    {A B C : Type 0} (g : B → C) (f : A → B) (xs : List A)
    → map g (map f xs) ≡ map (λ x. g (f x)) xs
map-map g f [] = refl
map-map g f (x ∷ xs) = ap (λ l. g (f x) ∷ l) (map-map g f xs)

pub length-map : {A B : Type 0} (f : A → B) (xs : List A) → length (map f xs) ≡ length xs
length-map f [] = refl
length-map f (x ∷ xs) = omega (arith, length-map f xs)

module _ {A : Type 0} (p : A → Bool) where
  pub any-keep : (xs : List A) → ltb 0 (length (keep p xs)) ≡ any p xs
  any-keep [] = refl
  any-keep (x ∷ xs) = grind (arith, any-keep xs)

  pub length-keep : (xs : List A) → length (keep p xs) ≤ length xs
  length-keep [] = omega arith
  length-keep (x ∷ xs) = grind (arith, length-keep xs)

-- What a count of rows tells.
pub touched_only : (b : Bool) (n : ℕ) → (b ≡ false → n ≡ 0) → not (ltb 0 n) || b ≡ true
touched_only true n h = ground arith
touched_only false n h = let z = h refl in ground arith

pub touched : (b : Bool) (n : ℕ) → (b ≡ true → ltb 0 n ≡ true) → not b || ltb 0 n ≡ true
touched true n h = h refl
touched false n h = refl

-- The first row that satisfies a test which a change of the rows does not enter.
pub first-keep-changed :
    {A B : Type 0} (account : A → B) (p : B → Bool) (change : B → B)
    → ((a : B) → p (change a) ≡ p a)
    → (old new : List A) (s : A) → map account new ≡ map change (map account old)
    → first (keep (λ x. p (account x)) old) ≡ some s
    → (r : A) × (first (keep (λ x. p (account x)) new) ≡ some r) × (account r ≡ change (account s))
first-keep-changed account p change blind [] new s h f = cc
first-keep-changed account p change blind (x ∷ old) [] s h f = cc
first-keep-changed account p change blind (x ∷ old) (y ∷ new) s h f =
    let head : account y ≡ change (account x) = cc in
    let tail : map account new ≡ map change (map account old) = cc in
    let same : p (account y) ≡ p (account x) = ap p head ∙ blind (account x) in
    let k = first-keep-changed account p change blind old new s tail in
    elim (Bool-cases (p (account x))) [
      | inl q ↦
          let found : some x ≡ some s = rw q at f in
          let at_head : x ≡ s = cc in
          (y, rw (same, q) refl, head ∙ ap (λ a. change (account a)) at_head)
      | inr q ↦
          let found : first (keep (λ z. p (account z)) old) ≡ some s = rw q at f in
          rw (same, q) (k found)
    ]
