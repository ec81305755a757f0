-- ===== src/Email/Reading.antt =====
-- src/utils/EmailUtil.{h,cpp}: the callback by which libcurl reads the text of a mail.
pub mod Delivery
use Prim.Native.Nat.{min}
use hm_music_player_back_end.Prelude.{
  ℕ, zero, suc, ◌-◌, ◌*◌, ◌%◌, ◌^◌, List, [], ◌∷◌, nat_eq, if◌then◌else◌,
}

module _ {ℓ} {A : Type ℓ} where
  -- `memcpy` from a place of the memory, and the place that many bytes further on.
  abbrev pub take : ℕ → List A → List A
  take zero xs = []
  take (suc n) [] = []
  take (suc n) (x ∷ xs) = x ∷ take n xs

  abbrev pub drop : ℕ → List A → List A
  drop zero xs = xs
  drop (suc n) [] = []
  drop (suc n) (x ∷ xs) = drop n xs

-- `bytes` is the memory from the pointer `data` on.
pub record EmailData {ℓ} (A : Type ℓ) : Type ℓ where
  pub bytes : List A
  pub size_left : ℕ

module _ {ℓ} {A : Type ℓ} where
  -- What is copied to `ptr`, the number that is returned, and the object that `data` points to.
  unfoldable pub read_callback : ℕ → ℕ → EmailData A → List A × ℕ × EmailData A
  read_callback size nmemb email_data =
      let buffer_size = (size * nmemb) % (2 ^ 64) in
      let copy_size = min buffer_size email_data.size_left in
      if nat_eq email_data.size_left 0 then ([], 0, email_data) else (
        take copy_size email_data.bytes,
        copy_size,
        record {
          bytes = drop copy_size email_data.bytes;
          size_left = email_data.size_left - copy_size;
        },
      )
