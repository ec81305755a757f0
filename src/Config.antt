-- ===== src/Config.antt =====
-- src/utils/Config.{h,cpp}: the settings, and the parsing of their file.
pub mod Loading
pub mod Sections
use hm_music_player_back_end.Prelude.{
  ℕ, ◌-◌, ◌^◌, ℤ, pos, negsuc, mod_int, ltb, String, Bool, true, false, ◌&&◌, Option, none, some,
  if◌then◌else◌,
}
use hm_music_player_back_end.Prelude.Effect.{
  json_exception, std_exception, Result, ok, throw, fault, Action, pure, or_raise, continue, ◌>>=◌,
}
use hm_music_player_back_end.External.{External}

pub record DatabaseConfig : Type 0 where
  pub host : String
  pub port : ℕ
  pub user : String
  pub password : String
  pub dbname : String
  pub connection_pool_size : ℕ
  pub connection_timeout : ℕ

pub record ServerConfig : Type 0 where
  pub host : String
  pub port : ℕ
  pub threads : ℤ
  pub request_timeout : ℕ

pub record JwtConfig : Type 0 where
  pub secret : String
  pub expire_time : ℕ
  pub issuer : String

pub record LogConfig : Type 0 where
  pub level : String
  pub path : String

-- The field that the source spells `verfication_code_expiry` is in seconds.
pub record VerifyServiceConfig : Type 0 where
  pub smtp_server_url : String
  pub smtp_user : String
  pub smtp_password : String
  pub verification_code_expiry : ℤ
  pub email_from : String

pub record Config : Type 0 where
  pub db_config : DatabaseConfig
  pub server_config : ServerConfig
  pub jwt_config : JwtConfig
  pub log_config : LogConfig
  pub verify_service_config : VerifyServiceConfig

-- The members' initialisers. `new Config()` value-initialises, so what has none is zero.
abbrev pub default_config : Config
default_config = record {
  db_config = record {
    host = "localhost";
    port = 3306;
    user = "root";
    password = "";
    dbname = "";
    connection_pool_size = 5;
    connection_timeout = 3;
  };
  server_config = record { host = "0.0.0.0"; port = 8080; threads = pos 4; request_timeout = 30 };
  jwt_config = record { secret = ""; expire_time = 86400; issuer = "music-player-backend" };
  log_config = record { level = "info"; path = "logs/app.log" };
  verify_service_config = record {
    smtp_server_url = "";
    smtp_user = "";
    smtp_password = "";
    verification_code_expiry = pos 0;
    email_from = "";
  };
}

-- `get<int>()` of a number: its lowest 32 bits, with a sign.
abbrev pub signed32 : ℕ → ℤ
signed32 n = if ltb n (2 ^ 31) then pos n else negsuc (2 ^ 32 - 1 - n)

-- A method of Config: what it writes stays written when it throws.
abbrev pub Loader : Type 0 → Type 0
Loader A = Action Config A

-- An assignment under a test, whose `else` throws.
unfoldable pub required : Bool → String → Config → Config → Result (Unit {0}) × Config
required b message after before =
    if b then (ok tt, after) else (throw (std_exception message), before)

-- One statement after another.
infixl 5 ◌>>◌
unfoldable pub ◌>>◌ : {A : Type 0} → Loader (Unit {0}) → Loader A → Loader A
◌>>◌ m k c = let (r, d) = m c in continue r (λ _. k) d

module _ (e : External) where
  open e.json use {Json, contains, at, is_string, is_number_integer, text_of, integer_of}

  -- `if (j.contains(key) && j[key].is_string()) … = j[key].get<std::string>();
  -- else throw std::runtime_error(message);`
  unfoldable pub required_text :
      String → String → Json → (String → Config → Config) → Loader (Unit {0})
  unfolding required
  required_text key message j write c =
      required (contains key j && is_string (at key j)) message (write (text_of (at key j)) c) c

  unfoldable pub required_integer :
      String → String → Json → (ℤ → Config → Config) → Loader (Unit {0})
  unfolding required
  required_integer key message j write c =
      required (contains key j && is_number_integer (at key j)) message
        (write (integer_of (at key j)) c) c

  unfoldable pub parse_database_config : Json → Loader (Unit {0})
  parse_database_config j = do
    required_text "host" "Database host is required" j
        λ v c. record c { db_config = record c.db_config { host = v } }
    required_integer "port" "Database port is required" j
        λ v c. record c { db_config = record c.db_config { port = mod_int v (2 ^ 16) } }
    required_text "user" "Database user is required" j
        λ v c. record c { db_config = record c.db_config { user = v } }
    required_text "password" "Database password is required" j
        λ v c. record c { db_config = record c.db_config { password = v } }
    required_text "dbname" "Database name is required" j
        λ v c. record c { db_config = record c.db_config { dbname = v } }
    required_integer "connection_pool_size" "Database connection pool size is required" j λ v c.
        record c { db_config = record c.db_config { connection_pool_size = mod_int v (2 ^ 64) } }
    required_integer "connection_timeout" "Database connection timeout is required" j λ v c.
        record c { db_config = record c.db_config { connection_timeout = mod_int v (2 ^ 32) } }

  unfoldable pub parse_server_config : Json → Loader (Unit {0})
  parse_server_config j = do
    required_text "host" "Server host is required" j
        λ v c. record c { server_config = record c.server_config { host = v } }
    required_integer "port" "Server port is required" j
        λ v c. record c { server_config = record c.server_config { port = mod_int v (2 ^ 16) } }
    required_integer "threads" "Server threads is required" j λ v c. record c {
      server_config = record c.server_config { threads = signed32 (mod_int v (2 ^ 32)) };
    }
    required_integer "request_timeout" "Server request timeout is required" j λ v c. record c {
      server_config = record c.server_config { request_timeout = mod_int v (2 ^ 32) };
    }

  unfoldable pub parse_jwt_config : Json → Loader (Unit {0})
  parse_jwt_config j = do
    required_text "secret" "JWT secret is required" j
        λ v c. record c { jwt_config = record c.jwt_config { secret = v } }
    required_integer "expire_time" "JWT expire time is required" j
        λ v c. record c { jwt_config = record c.jwt_config { expire_time = mod_int v (2 ^ 32) } }
    required_text "issuer" "JWT issuer is required" j
        λ v c. record c { jwt_config = record c.jwt_config { issuer = v } }

  unfoldable pub parse_log_config : Json → Loader (Unit {0})
  parse_log_config j = do
    required_text "level" "Log level is required" j
        λ v c. record c { log_config = record c.log_config { level = v } }
    required_text "path" "Log path is required" j
        λ v c. record c { log_config = record c.log_config { path = v } }

  unfoldable pub parse_verify_service_config : Json → Loader (Unit {0})
  parse_verify_service_config j = do
    required_text "smtp_server_url" "SMTP server is required" j λ v c. record c {
      verify_service_config = record c.verify_service_config { smtp_server_url = v };
    }
    required_text "smtp_user" "SMTP user is required" j
        λ v c. record c { verify_service_config = record c.verify_service_config { smtp_user = v } }
    required_text "smtp_password" "SMTP password is required" j λ v c. record c {
      verify_service_config = record c.verify_service_config { smtp_password = v };
    }
    required_integer "verification_code_expiry" "Verification code expiry is required" j λ v c.
        record c {
          verify_service_config = record c.verify_service_config {
            verification_code_expiry = signed32 (mod_int v (2 ^ 32));
          };
        }
    required_text "email_from" "Email from is required" j λ v c. record c {
      verify_service_config = record c.verify_service_config { email_from = v };
    }

  -- `if (j.contains(key)) parse(j[key]); else return false;` before the rest.
  unfoldable pub section_or_false :
      String → (Json → Loader (Unit {0})) → Json → Loader Bool → Loader Bool
  section_or_false key parse_section j rest =
      if contains key j then parse_section (at key j) >> rest else pure false

  -- What the `else` of the last section holds is the log line.
  unfoldable pub last_section : Json → Loader Bool
  last_section j =
      if contains "verify_service" j
      then parse_verify_service_config (at "verify_service" j) >> pure true
      else pure true

  unfoldable pub parse_sections : Json → Loader Bool
  parse_sections j = section_or_false "database" parse_database_config j (
      section_or_false "server" parse_server_config j (
        section_or_false "jwt" parse_jwt_config j
          (section_or_false "log" parse_log_config j (last_section j))))

  -- `catch (…) { return false; }`
  unfoldable pub false_on_exception : Result Bool → Result Bool
  false_on_exception (throw x) = ok false
  false_on_exception r = r

  unfoldable pub read_sections : String → Loader Bool
  read_sections content = or_raise (e.json.parse_first content) json_exception >>= parse_sections

  unfoldable pub load_from_file : String → e.file.Disk → Loader Bool
  load_from_file filename disk c =
      let (r, d) = read_sections (e.file.read filename disk) c in
      if e.file.open_in filename disk then (false_on_exception r, d) else (ok false, c)
