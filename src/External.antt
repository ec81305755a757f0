-- ===== src/External.antt =====
-- What the program calls and does not implement, each library as a record of its operations: the
-- MySQL connector, nlohmann::json, jwt-cpp, libcurl, OpenSSL's SHA-256 and the file system.
-- The modules take an `External` as a parameter, so nothing is assumed of these operations but
-- what a theorem names among its hypotheses.
use hm_music_player_back_end.Prelude.{ℕ, ℤ, String, Bool, Option, List}

-- The arguments that are bound to the places of a prepared statement.
pub data Param : Type 0 where
  int : ℤ → Param
  text : String → Param
  null : Param

-- A call changes the server, and returns a value or throws SQLException (`none`). One call here
-- is the preparation of a statement, the binding of its arguments and its execution.
pub record Sql : Type 1 where
  pub Db : Type 0
  pub Row : Type 0
  pub connect : String → String → String → Db → Db × Option ℕ
  pub set_schema : ℕ → String → Db → Db × Option (Unit {0})
  pub is_valid : ℕ → Db → Db × Option Bool
  pub reconnect : ℕ → Db → Db × Option Bool
  pub close : ℕ → Db → Db × Option (Unit {0})
  pub execute_update : ℕ → String → List Param → Db → Db × Option ℕ
  pub execute_query : ℕ → String → List Param → Db → Db × Option (List Row)
  -- `executeQuery(sql)` of a PreparedStatement, which the connector has beside that of a Statement
  pub prepared_execute_query : ℕ → String → Db → Db × Option (List Row)
  pub get_int : String → Row → Option ℤ
  pub get_string : String → Row → Option String
  pub is_null : String → Row → Option Bool

-- What the source writes between the braces of `json{…}`.
mutual
  pub data Init : Type 0 where
    string : String → Init
    number : ℤ → Init
    braces : Inits → Init

  pub data Inits : Type 0 where
    nil : Inits
    cons : Init → Inits → Inits

-- `parse` and `get_string` throw json::exception (`none`) on a text that is no JSON and on a value
-- that is no string; `dump` does so on a string that is not UTF-8.
pub record JsonLib : Type 1 where
  pub Json : Type 0
  pub parse : String → Option Json
  pub contains : String → Json → Bool
  pub get_string : String → Json → Option String
  pub dump : Init → Option String
  -- `stream >> json`, which reads the first value of a text; the value under a key that is there;
  -- its type, and its number as an int64_t or, above that, a uint64_t
  pub parse_first : String → Option Json
  pub at : String → Json → Json
  pub is_string : Json → Bool
  pub is_number_integer : Json → Bool
  pub text_of : Json → String
  pub integer_of : Json → ℤ

-- What `jwt::create()` collects before `sign`. Times are in nanoseconds.
pub record Claims : Type 0 where
  pub issuer : String
  pub type : String
  pub issued_at : ℤ
  pub expires_at : ℤ
  pub subject : String
  pub payload : List (String × String)

-- A value, or an exception that derives from std::exception, with its `what()`.
pub data Try (A : Type 0) : Type 0 where
  done : A → Try A
  failed : String → Try A

pub record JwtLib : Type 1 where
  pub Decoded : Type 0
  pub decode : String → Try Decoded
  -- the verifier's secret for HS256, issuer, leeway in seconds, and time
  pub verify : String → String → ℕ → ℤ → Decoded → Bool
  pub get_token : Decoded → String
  pub get_expires_at : Decoded → Try ℤ
  pub get_subject : Decoded → Try String
  pub get_payload_claim : String → Decoded → Try String
  pub sign : String → Claims → Try String

-- The options that the source sets before `curl_easy_perform`, with the text that is read.
pub record Message : Type 0 where
  pub url : String
  pub username : String
  pub password : String
  pub mail_from : String
  pub recipient : String
  pub content : String

pub record CurlLib : Type 1 where
  pub Net : Type 0
  -- whether `curl_easy_init` returns a handle, and whether `curl_easy_perform` returns CURLE_OK
  pub easy_init : Net → Net × Bool
  pub easy_perform : Message → Net → Net × Bool
  pub easy_cleanup : Net → Net

-- `none` is a filesystem_error; the streams report by their state.
pub record FileLib : Type 1 where
  pub Disk : Type 0
  pub exists : String → Disk → Option Bool
  pub create_directory : String → Disk → Disk × Option Bool
  pub open_out : String → Disk → Disk × Bool
  pub write : String → String → Disk → Disk
  pub open_in : String → Disk → Bool
  pub read : String → Disk → String

pub record External : Type 1 where
  pub sql : Sql
  pub json : JsonLib
  pub jwt : JwtLib
  pub curl : CurlLib
  pub file : FileLib
  -- the SHA-256 digest of a text, byte by byte
  pub sha256 : String → List ℕ
  -- `std::regex_match` of the text of a pattern and a whole subject, or the regex_error
  pub regex_match : String → String → Try Bool
  -- the `what()` of a json::exception and of an SQLException
  pub json_what : String
  pub sql_what : String

-- Addresses of Boost.Asio: IPv4's unspecified one, `make_address` of a text, and an acceptor's
-- `open`, `bind` and `listen` at an address and a port; `failed` is a system_error.
pub record Asio : Type 1 where
  pub Address : Type 0
  pub v4_any : Address
  pub make_address : String → Try Address
  pub listen : Address → ℕ → Try (Unit {0})
