-- ===== src/Examples/Outside.antt =====
-- Libraries that do what the program relies on, over small states: a table of users, tokens that
-- are the text of an id and stand for one address, JSON texts that are known by name.
use hm_music_player_back_end.Prelude.{
  ℕ, suc, ℤ, pos, int_eq, String, code, Bool, true, false, ◌||◌, ◌&&◌, not, length, ◌==◌, Option,
  none, some, List, [], ◌∷◌, ◌++◌, map, if◌then◌else◌,
}
use Prim.Native.Nat.{max}
use hm_music_player_back_end.Prelude.Dict.{find, assign}
use hm_music_player_back_end.External.{
  External, Sql, JsonLib, JwtLib, CurlLib, FileLib, Param, int, text, Try, done, failed,
}
use hm_music_player_back_end.Decimal.{atoi}
use hm_music_player_back_end.UserDao.Table.{Account, keep, any}

-- A row of the table, and the one row that holds the last id.
pub record Entry : Type 0 where
  pub number : ℕ
  pub username : String
  pub passwd_hash : String
  pub email : String
  pub qq_id : String
  pub netease_id : String

pub data Row : Type 0 where
  of_entry : Entry → Row
  of_id : ℤ → Row

pub record Db : Type 0 where
  pub entries : List Entry
  pub last : ℕ

abbrev pub account_of : Entry → Account
account_of e = record {
  id = pos e.number;
  username = e.username;
  passwd_hash = e.passwd_hash;
  email = e.email;
  qq_id = e.qq_id;
  netease_id = e.netease_id;
}

-- A number above those of all entries.
abbrev pub above : List Entry → ℕ
above [] = 1
above (e ∷ es) = max (suc e.number) (above es)

abbrev pub entry_of : ℕ → String → String → String → Entry
entry_of n name hash email = record {
  number = n;
  username = name;
  passwd_hash = hash;
  email = email;
  qq_id = "";
  netease_id = "";
}

abbrev pub clashes : String → String → Entry → Bool
clashes name email e = e.username == name || e.email == email

abbrev pub inserted : List Param → Db → Db × Option ℕ
inserted (text name ∷ text hash ∷ text email ∷ []) db =
    if any (clashes name email) db.entries then (db, none) else (
      record {
        entries = db.entries ++ entry_of (above db.entries) name hash email ∷ [];
        last = above db.entries;
      },
      some 1,
    )
inserted params db = (db, none)

abbrev pub rehashed : List Param → Db → Db × Option ℕ
rehashed (text hash ∷ int i ∷ []) db = (
  record db {
    entries =
        map (λ (e : Entry). if int_eq (pos e.number) i then record e { passwd_hash = hash } else e)
          db.entries;
  },
  some 1,
)
rehashed params db = (db, none)

abbrev pub text_of_param : Param → String
text_of_param (text s) = s
text_of_param p = ""

abbrev pub has_number : ℤ → Entry → Bool
has_number i e = int_eq (pos e.number) i

-- One column, or the four of updateUser, in the entries with a number.
abbrev pub set_columns : (Entry → Entry) → ℤ → Db → Db × Option ℕ
set_columns f i db = (
  record db { entries = map (λ (e : Entry). if has_number i e then f e else e) db.entries },
  some (length (keep (has_number i) db.entries)),
)

abbrev pub rewritten : List Param → Db → Db × Option ℕ
rewritten (text name ∷ text email ∷ qq ∷ netease ∷ int i ∷ []) db =
    if any (has_number i) db.entries
      && any (λ e. not (has_number i e) && clashes name email e) db.entries
    then (db, none)
    else set_columns
        (λ e. record e {
          username = name;
          email = email;
          qq_id = text_of_param qq;
          netease_id = text_of_param netease;
        })
        i db
rewritten params db = (db, none)

abbrev pub with_qq_id : List Param → Db → Db × Option ℕ
with_qq_id (text s ∷ int i ∷ []) db = set_columns (λ e. record e { qq_id = s }) i db
with_qq_id params db = (db, none)

abbrev pub with_netease_id : List Param → Db → Db × Option ℕ
with_netease_id (text s ∷ int i ∷ []) db = set_columns (λ e. record e { netease_id = s }) i db
with_netease_id params db = (db, none)

abbrev pub deleted : List Param → Db → Db × Option ℕ
deleted (int i ∷ []) db = (
  record db { entries = keep (λ e. not (has_number i e)) db.entries },
  some (length (keep (has_number i) db.entries)),
)
deleted params db = (db, none)

abbrev pub updates : String → List Param → Db → Db × Option ℕ
updates statement params db =
    if statement == "INSERT INTO users (username, passwd_hash, email) VALUES (?, ?, ?)"
    then inserted params db
    else if statement == "UPDATE users SET passwd_hash = ? WHERE id = ?"
    then rehashed params db
    else if statement
        == "UPDATE users SET username = ?, email = ?, qq_id = ?, netease_id = ? WHERE id = ?"
    then rewritten params db
    else if statement == "UPDATE users SET qq_id = ? WHERE id = ?"
    then with_qq_id params db
    else if statement == "UPDATE users SET netease_id = ? WHERE id = ?"
    then with_netease_id params db
    else if statement == "DELETE FROM users WHERE id = ?"
    then deleted params db
    else (db, some 0)

abbrev pub selected : String → List Param → Db → Option (List Row)
selected statement (text name ∷ []) db =
    if statement == "SELECT * FROM users WHERE username = ?"
    then some (map of_entry (keep (λ e. e.username == name) db.entries))
    else none
selected statement (int i ∷ []) db =
    if statement == "SELECT * FROM users WHERE id = ?"
    then some (map of_entry (keep (λ e. int_eq (pos e.number) i) db.entries))
    else none
selected statement [] db =
    if statement == "SELECT LAST_INSERT_ID() AS id" then some (of_id (pos db.last) ∷ []) else none
selected statement params db = none

abbrev pub text_column : String → Entry → Option String
text_column name e =
    if name == "username"
    then some e.username
    else if name == "passwd_hash"
    then some e.passwd_hash
    else if name == "email"
    then some e.email
    else if name == "qq_id"
    then some e.qq_id
    else if name == "netease_id"
    then some e.netease_id
    else some "2025"

abbrev pub get_text : String → Row → Option String
get_text name (of_entry e) = text_column name e
get_text name (of_id i) = none

abbrev pub get_number : String → Row → Option ℤ
get_number name (of_entry e) = some (pos e.number)
get_number name (of_id i) = some i

abbrev pub server : Sql
server = record {
  Db = Db;
  Row = Row;
  connect = λ url user password db. (db, some 1);
  set_schema = λ c name db. (db, some tt);
  is_valid = λ c db. (db, some true);
  reconnect = λ c db. (db, some true);
  close = λ c db. (db, some tt);
  execute_update = λ c. updates;
  execute_query = λ c statement params db. (db, selected statement params db);
  prepared_execute_query = λ c statement db. (db, none);
  get_int = get_number;
  get_string = get_text;
  is_null = λ name row. some false;
}

-- A body is known by its name.
abbrev pub bodies : List (String × List (String × String))
bodies =
    (
      "register",
      ("username", "ann") ∷ ("password", "p") ∷ ("email", "a@b.c") ∷ ("verify_code", "000000") ∷ [],
    )
    ∷ ("login", ("username", "ann") ∷ ("password", "p") ∷ [])
    ∷ ("guess", ("username", "ann") ∷ ("password", "q") ∷ [])
    ∷ ("code", ("email", "a@b.c") ∷ ("action", "register") ∷ [])
    ∷ ("change", ("new_password", "q") ∷ ("email", "a@b.c") ∷ ("verify_code", "000000") ∷ [])
    ∷ (
      "mailed",
      ("username", "ann") ∷ ("password", "p") ∷ ("email", "a@b.c") ∷ ("verify_code", "777777") ∷ [],
    )
    ∷ ("bind", ("platform", "qq") ∷ ("platform_id", "7") ∷ [])
    ∷ ("avatar", ("avatar_data", "pixels") ∷ [])
    ∷ []

abbrev pub is_some : {A : Type 0} → Option A → Bool
is_some none = false
is_some (some a) = true

abbrev pub or_empty : Option String → String
or_empty none = ""
or_empty (some s) = s

abbrev pub json_lib : JsonLib
json_lib = record {
  Json = List (String × String);
  parse = λ body. find body bodies;
  contains = λ key j. is_some (find key j);
  get_string = find;
  dump = λ i. some "{}";
  parse_first = λ text. find text bodies;
  at = λ key j. ("", or_empty (find key j)) ∷ [];
  is_string = λ j. true;
  is_number_integer = λ j. false;
  text_of = λ j. or_empty (find "" j);
  integer_of = λ j. pos 0;
}

abbrev pub decoded : String → Option ℤ → Try String
decoded token none = failed "bad token"
decoded token (some i) = done token

abbrev jwt_lib : JwtLib
jwt_lib = record {
  Decoded = String;
  decode = λ token. decoded token (atoi token);
  verify = λ secret issuer leeway t d. true;
  get_token = λ d. d;
  get_expires_at = λ d. done (pos 1000);
  get_subject = λ d. done d;
  get_payload_claim = λ name d. done (if name == "email" then "a@b.c" else d);
  sign = λ secret claims. done (or_empty (find "id" claims.payload));
}

abbrev curl_lib : CurlLib
curl_lib = record {
  Net = ℕ;
  easy_init = λ n. (n, true);
  easy_perform = λ m n. (suc n, true);
  easy_cleanup = λ n. n;
}

abbrev file_lib : FileLib
file_lib = record {
  Disk = List (String × String);
  exists = λ path d. some (is_some (find path d));
  create_directory = λ path d. (assign path "" d, some true);
  open_out = λ path d. (assign path "" d, true);
  write = assign;
  open_in = λ path d. is_some (find path d);
  read = λ path d. or_empty (find path d);
}

abbrev codes_of : String → List ℕ
codes_of String.[] = []
codes_of (String.◌∷◌ c s) = code c ∷ codes_of s

abbrev pub outside : External
outside = record {
  sql = server;
  json = json_lib;
  jwt = jwt_lib;
  curl = curl_lib;
  file = file_lib;
  sha256 = codes_of;
  regex_match = λ pattern s. done (not (s == ""));
  json_what = "json";
  sql_what = "sql";
}
