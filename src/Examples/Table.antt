-- ===== src/Examples/Table.antt =====
-- The small server keeps the laws of the table of users.
use hm_music_player_back_end.Prelude.{
  true, ℕ, ◌≤◌, ℤ, pos, int_eq, String, false, ◌==◌, ◌≡◌, refl, List, [], ◌∷◌, ◌++◌, map,
  if◌then◌else◌, not, ltb, length, eq_iff, arith, eq_refl, inr,
}
use native.Mathlib.Nat.{le_refl}
use hm_music_player_back_end.UserDao.Table.{Account, UserTable, any, keep, differs}
use hm_music_player_back_end.UserDao.{text_or_null}
use hm_music_player_back_end.Models.{User}
use hm_music_player_back_end.Examples.Outside.{
  Entry, of_entry, of_id, account_of, above, entry_of, server, has_number, set_columns,
  text_of_param,
}

pub above_fresh :
    (n : ℕ) (es : List Entry)
    → above es ≤ n
    → any (λ t. int_eq (account_of t).id (pos n)) es ≡ false
above_fresh n [] h = refl
above_fresh n (e ∷ es) h = ground (arith, above_fresh n es)

pub map-rehash :
    (hash : String) (i : ℤ) (es : List Entry)
    → map account_of (
        map
          (λ (e : Entry). if int_eq (pos e.number) i then record e { passwd_hash = hash } else e)
          es)
      ≡ map
          (λ (a : Account). if int_eq a.id i then record a { passwd_hash = hash } else a)
          (map account_of es)
map-rehash hash i [] = refl
map-rehash hash i (e ∷ es) = ground (arith, map-rehash hash i es)

pub map-set_columns :
    (f : Entry → Entry) (g : Account → Account) (i : ℤ)
    → ((e : Entry) → account_of (f e) ≡ g (account_of e))
    → (es : List Entry)
    → map account_of (map (λ (e : Entry). if has_number i e then f e else e) es)
      ≡ map (λ (a : Account). if int_eq a.id i then g a else a) (map account_of es)
map-set_columns f g i same [] = refl
map-set_columns f g i same (e ∷ es) = grind (arith, same e, map-set_columns f g i same es)

pub counted :
    (i : ℤ) (es : List Entry)
    → ltb 0 (length (keep (has_number i) es)) ≡ any (λ e. int_eq (account_of e).id i) es
counted i [] = refl
counted i (e ∷ es) = grind (arith, counted i es)

pub counted_none :
    (i : ℤ) (es : List Entry)
    → any (λ e. int_eq (account_of e).id i) es ≡ false
    → length (keep (has_number i) es) ≡ 0
counted_none i [] h = refl
counted_none i (e ∷ es) h = ground (arith, counted_none i es)

pub counted_changed :
    (user : User) (es : List Entry)
    → any (λ e. differs user (account_of e)) es ≡ true
    → ltb 0 (length (keep (has_number user.id) es)) ≡ true
counted_changed user [] h = cc
counted_changed user (e ∷ es) h = ground (arith, counted_changed user es)

pub text_of-text_or_null : (s : String) → text_of_param (text_or_null s) ≡ s
text_of-text_or_null s = ground (arith, eq_iff s "")

abbrev pub table : UserTable server
table = record {
  Stored = Entry;
  row = of_entry;
  account = account_of;
  create_at = λ e. "2025";
  update_at = λ e. "2025";
  rows = λ db. db.entries;
  last_insert_id = λ c db. pos db.last;
  same = ◌==◌;
  same_refl = eq_refl;
  row_id = λ s. refl;
  row_username = λ s. refl;
  row_passwd_hash = λ s. refl;
  row_email = λ s. refl;
  row_create_at = λ s. refl;
  row_update_at = λ s. refl;
  row_qq_id = λ s. inr (refl, refl);
  row_netease_id = λ s. inr (refl, refl);
  ping = λ c db. (db, refl, refl);
  select_username = λ c name db. (db, refl, refl);
  select_id = λ c i db. (db, refl, refl);
  fits = λ n s. true;
  insert = λ c name hash email db fit free. (
    record {
      entries = db.entries ++ entry_of (above db.entries) name hash email ∷ [];
      last = above db.entries;
    },
    entry_of (above db.entries) name hash email,
    rw free,
    refl,
    refl,
    above_fresh (above db.entries) db.entries (le_refl _),
  );
  insert_duplicate = λ c name hash email db taken. (db, rw taken, refl);
  select_last_insert_id = λ c db. (db, of_id (pos db.last), refl, refl, refl);
  update_passwd_hash = λ c hash i db fit. (
    record db {
      entries =
          map
            (λ (e : Entry). if int_eq (pos e.number) i then record e { passwd_hash = hash } else e)
            db.entries;
    },
    1,
    refl,
    map-rehash hash i db.entries,
  );
  update_columns = λ c user db fit free. (
    (set_columns
        (λ e. record e {
          username = user.username;
          email = user.email;
          qq_id = user.qq_id;
          netease_id = user.netease_id;
        })
        user.id db).0,
    length (keep (has_number user.id) db.entries),
    rw (text_of-text_or_null user.qq_id, text_of-text_or_null user.netease_id, free) refl,
    map-set_columns _
        (λ a. record a {
          username = user.username;
          email = user.email;
          qq_id = user.qq_id;
          netease_id = user.netease_id;
        })
        user.id (λ e. refl) db.entries,
    counted_none user.id db.entries,
    counted_changed user db.entries,
  );
  update_columns_duplicate = λ c user db taken. (db, rw taken refl, refl);
  delete_id = λ c i db. (
    record db { entries = keep (λ e. not (has_number i e)) db.entries },
    length (keep (has_number i) db.entries),
    refl,
    refl,
    counted i db.entries,
  );
  update_qq_id = λ c s i db fit. (
    (set_columns (λ e. record e { qq_id = s }) i db).0,
    length (keep (has_number i) db.entries),
    refl,
    map-set_columns _ (λ a. record a { qq_id = s }) i (λ e. refl) db.entries,
  );
  update_netease_id = λ c s i db fit. (
    (set_columns (λ e. record e { netease_id = s }) i db).0,
    length (keep (has_number i) db.entries),
    refl,
    map-set_columns _ (λ a. record a { netease_id = s }) i (λ e. refl) db.entries,
  );
}
