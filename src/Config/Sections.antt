-- ===== src/Config/Sections.antt =====
-- What the settings of each section are, and that the parser of the section reads them.
use hm_music_player_back_end.Prelude.{
  ℕ, ◌^◌, ℤ, mod_int, String, ◌≡◌, ◌⊎◌, Bool, true, false, ◌&&◌, arith,
}
use hm_music_player_back_end.Prelude.Effect.{Result, ok, throw}
use hm_music_player_back_end.External.{External}
use hm_music_player_back_end.Config.{
  DatabaseConfig, ServerConfig, JwtConfig, LogConfig, VerifyServiceConfig, Config, Loader, signed32,
  required, required_text, required_integer, parse_database_config, parse_server_config,
  parse_jwt_config, parse_log_config, parse_verify_service_config, ◌>>◌,
}

abbrev pub throws : {A : Type 0} → Result A → Bool
throws (throw x) = true
throws _ = false

-- An action that either ends in the configuration `d`, which is so where `b` holds, or throws.
abbrev pub Loads : {A : Type 0} → A → Result A × Config → Config → Bool → Type 0
Loads a m d b = ((m ≡ (ok a, d)) × (b ≡ true)) ⊎ ((throws m.0 ≡ true) × (b ≡ false))

-- One statement more.
then-Loads :
    {A : Type 0} (m : Loader (Unit {0})) (k : Loader A) (a : A) (c d f : Config) (b b' : Bool)
    → Loads tt (m c) d b
    → Loads a (k d) f b'
    → Loads a ((m >> k) c) f (b && b')
unfolding ◌>>◌
then-Loads m k a c d f b b' h h' = grind arith

module _ (e : External) where
  open e.json use {Json, contains, at, is_string, is_number_integer, text_of, integer_of}

  abbrev pub has_text : String → Json → Bool
  has_text key j = contains key j && is_string (at key j)

  abbrev pub has_integer : String → Json → Bool
  has_integer key j = contains key j && is_number_integer (at key j)

  text-Loads :
      (key message : String) (j : Json) (write : String → Config → Config) (c : Config)
      → Loads tt
          (required_text e key message j write c)
          (write (text_of (at key j)) c)
          (has_text key j)
  unfolding required_text required
  text-Loads key message j write c = grind arith

  integer-Loads :
      (key message : String) (j : Json) (write : ℤ → Config → Config) (c : Config)
      → Loads tt
          (required_integer e key message j write c)
          (write (integer_of (at key j)) c)
          (has_integer key j)
  unfolding required_integer required
  integer-Loads key message j write c = grind arith

  -- The number under a key, as an unsigned integer of this many values.
  abbrev pub unsigned : String → ℕ → Json → ℕ
  unsigned key m j = mod_int (integer_of (at key j)) m

  abbrev pub database_complete : Json → Bool
  database_complete j =
      has_text "host" j
      && (has_integer "port" j
          && (has_text "user" j
              && (has_text "password" j
                  && (has_text "dbname" j
                      && (has_integer "connection_pool_size" j
                          && has_integer "connection_timeout" j)))))

  abbrev pub database_of : Json → DatabaseConfig
  database_of j = record {
    host = text_of (at "host" j);
    port = unsigned "port" (2 ^ 16) j;
    user = text_of (at "user" j);
    password = text_of (at "password" j);
    dbname = text_of (at "dbname" j);
    connection_pool_size = unsigned "connection_pool_size" (2 ^ 64) j;
    connection_timeout = unsigned "connection_timeout" (2 ^ 32) j;
  }

  pub parse_database_config_lem :
      (j : Json) (c : Config)
      → Loads tt
          (parse_database_config e j c)
          (record c { db_config = database_of j })
          (database_complete j)
  unfolding parse_database_config
  parse_database_config_lem j c = then-Loads _ _ _ _ _ _ _ _ (text-Loads _ _ _ _ _) (
      then-Loads _ _ _ _ _ _ _ _ (integer-Loads _ _ _ _ _) (
        then-Loads _ _ _ _ _ _ _ _ (text-Loads _ _ _ _ _) (
          then-Loads _ _ _ _ _ _ _ _ (text-Loads _ _ _ _ _) (
            then-Loads _ _ _ _ _ _ _ _ (text-Loads _ _ _ _ _)
              (then-Loads _ _ _ _ _ _ _ _ (integer-Loads _ _ _ _ _) (integer-Loads _ _ _ _ _))))))

  abbrev pub server_complete : Json → Bool
  server_complete j =
      has_text "host" j
      && (has_integer "port" j && (has_integer "threads" j && has_integer "request_timeout" j))

  abbrev pub server_of : Json → ServerConfig
  server_of j = record {
    host = text_of (at "host" j);
    port = unsigned "port" (2 ^ 16) j;
    threads = signed32 (unsigned "threads" (2 ^ 32) j);
    request_timeout = unsigned "request_timeout" (2 ^ 32) j;
  }

  pub parse_server_config_lem :
      (j : Json) (c : Config)
      → Loads tt
          (parse_server_config e j c)
          (record c { server_config = server_of j })
          (server_complete j)
  unfolding parse_server_config
  parse_server_config_lem j c = then-Loads _ _ _ _ _ _ _ _ (text-Loads _ _ _ _ _) (
      then-Loads _ _ _ _ _ _ _ _ (integer-Loads _ _ _ _ _)
        (then-Loads _ _ _ _ _ _ _ _ (integer-Loads _ _ _ _ _) (integer-Loads _ _ _ _ _)))

  abbrev pub jwt_complete : Json → Bool
  jwt_complete j = has_text "secret" j && (has_integer "expire_time" j && has_text "issuer" j)

  abbrev pub jwt_of : Json → JwtConfig
  jwt_of j = record {
    secret = text_of (at "secret" j);
    expire_time = unsigned "expire_time" (2 ^ 32) j;
    issuer = text_of (at "issuer" j);
  }

  pub parse_jwt_config_lem :
      (j : Json) (c : Config)
      → Loads tt (parse_jwt_config e j c) (record c { jwt_config = jwt_of j }) (jwt_complete j)
  unfolding parse_jwt_config
  parse_jwt_config_lem j c =
      then-Loads _ _ _ _ _ _ _ _ (text-Loads _ _ _ _ _)
        (then-Loads _ _ _ _ _ _ _ _ (integer-Loads _ _ _ _ _) (text-Loads _ _ _ _ _))

  abbrev pub log_complete : Json → Bool
  log_complete j = has_text "level" j && has_text "path" j

  abbrev pub log_of : Json → LogConfig
  log_of j = record { level = text_of (at "level" j); path = text_of (at "path" j) }

  pub parse_log_config_lem :
      (j : Json) (c : Config)
      → Loads tt (parse_log_config e j c) (record c { log_config = log_of j }) (log_complete j)
  unfolding parse_log_config
  parse_log_config_lem j c =
      then-Loads _ _ _ _ _ _ _ _ (text-Loads _ _ _ _ _) (text-Loads _ _ _ _ _)

  abbrev pub verify_service_complete : Json → Bool
  verify_service_complete j =
      has_text "smtp_server_url" j
      && (has_text "smtp_user" j
          && (has_text "smtp_password" j
              && (has_integer "verification_code_expiry" j && has_text "email_from" j)))

  abbrev pub verify_service_of : Json → VerifyServiceConfig
  verify_service_of j = record {
    smtp_server_url = text_of (at "smtp_server_url" j);
    smtp_user = text_of (at "smtp_user" j);
    smtp_password = text_of (at "smtp_password" j);
    verification_code_expiry = signed32 (unsigned "verification_code_expiry" (2 ^ 32) j);
    email_from = text_of (at "email_from" j);
  }

  pub parse_verify_service_config_lem :
      (j : Json) (c : Config)
      → Loads tt
          (parse_verify_service_config e j c)
          (record c { verify_service_config = verify_service_of j })
          (verify_service_complete j)
  unfolding parse_verify_service_config
  parse_verify_service_config_lem j c = then-Loads _ _ _ _ _ _ _ _ (text-Loads _ _ _ _ _) (
      then-Loads _ _ _ _ _ _ _ _ (text-Loads _ _ _ _ _) (
        then-Loads _ _ _ _ _ _ _ _ (text-Loads _ _ _ _ _)
          (then-Loads _ _ _ _ _ _ _ _ (integer-Loads _ _ _ _ _) (text-Loads _ _ _ _ _))))
