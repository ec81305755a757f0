-- ===== src/Config/Loading.antt =====
-- What the settings of a file are, and that `loadFromFile` reads them.
use hm_music_player_back_end.Prelude.{
  String, ◌≡◌, ◌⊎◌, inl, inr, Bool, true, false, ◌&&◌, Option, Option-cases, none, some,
  if◌then◌else◌, arith,
}
use hm_music_player_back_end.Prelude.Effect.{Result, ok}
use hm_music_player_back_end.External.{External}
use hm_music_player_back_end.Config.{
  Config, Loader, parse_database_config, parse_server_config, parse_jwt_config, parse_log_config,
  section_or_false, last_section, parse_sections, false_on_exception, read_sections, load_from_file,
  ◌>>◌,
}
use hm_music_player_back_end.Config.Sections.{
  Loads, database_complete, database_of, server_complete, server_of, jwt_complete, jwt_of,
  log_complete, log_of, verify_service_complete, verify_service_of, parse_database_config_lem,
  parse_server_config_lem, parse_jwt_config_lem, parse_log_config_lem,
  parse_verify_service_config_lem,
}

abbrev any_option : {A : Type 0} → (A → Bool) → Option A → Bool
any_option p none = false
any_option p (some a) = p a

module _ (e : External) where
  open e.json use {Json, contains, at, is_string, is_number_integer, text_of, integer_of}

  -- The last section may be missing.
  abbrev pub is_complete : Json → Bool
  is_complete j =
      contains "database" j
      && (database_complete e (at "database" j)
          && (contains "server" j
              && (server_complete e (at "server" j)
                  && (contains "jwt" j
                      && (jwt_complete e (at "jwt" j)
                          && (contains "log" j
                              && (log_complete e (at "log" j)
                                  && (if contains "verify_service" j
                                      then verify_service_complete e (at "verify_service" j)
                                      else true))))))))

  -- The settings after a complete file: without its last section, those of before stand there.
  abbrev pub configured : Json → Config → Config
  configured j c = record {
    db_config = database_of e (at "database" j);
    server_config = server_of e (at "server" j);
    jwt_config = jwt_of e (at "jwt" j);
    log_config = log_of e (at "log" j);
    verify_service_config =
        if contains "verify_service" j
        then verify_service_of e (at "verify_service" j)
        else c.verify_service_config;
  }

  -- What `loadFromFile` returns of an action's result, with the settings that it leaves.
  abbrev Reads : Result Bool × Config → Config → Bool → Type 0
  Reads m d b =
      ((m ≡ (ok true, d)) × (b ≡ true)) ⊎ ((false_on_exception e m.0 ≡ ok false) × (b ≡ false))

  last_section-Reads :
      (j : Json) (c : Config)
      → Reads
          (last_section e j c)
          (record c {
            verify_service_config =
                if contains "verify_service" j
                then verify_service_of e (at "verify_service" j)
                else c.verify_service_config;
          })
          (if contains "verify_service" j
            then verify_service_complete e (at "verify_service" j)
            else true)
  unfolding last_section false_on_exception ◌>>◌
  last_section-Reads j c =
      let l = parse_verify_service_config_lem e (at "verify_service" j) c in grind arith

  section_or_false-Reads :
      (key : String) (parse : Json → Loader (Unit {0})) (j : Json) (rest : Loader Bool)
      (c parsed d : Config) (b complete : Bool)
      → Loads tt (parse (at key j) c) parsed b
      → Reads (rest parsed) d complete
      → Reads (section_or_false e key parse j rest c) d (contains key j && (b && complete))
  unfolding section_or_false false_on_exception ◌>>◌
  section_or_false-Reads key parse j rest c parsed d b complete l k = grind arith

  parse_sections-Reads :
      (j : Json) (c : Config) → Reads (parse_sections e j c) (configured j c) (is_complete j)
  unfolding parse_sections
  parse_sections-Reads j c =
      let c1 : Config = record c { db_config = database_of e (at "database" j) } in
      let c2 : Config = record c1 { server_config = server_of e (at "server" j) } in
      let c3 : Config = record c2 { jwt_config = jwt_of e (at "jwt" j) } in
      let c4 : Config = record c3 { log_config = log_of e (at "log" j) } in
      section_or_false-Reads "database" (parse_database_config e) j _ c c1 _ _ _
        (parse_database_config_lem e (at "database" j) c)
        (section_or_false-Reads "server" (parse_server_config e) j _ c1 c2 _ _ _
          (parse_server_config_lem e (at "server" j) c1)
          (section_or_false-Reads "jwt" (parse_jwt_config e) j _ c2 c3 _ _ _
            (parse_jwt_config_lem e (at "jwt" j) c2)
            (section_or_false-Reads "log" (parse_log_config e) j (last_section e j) c3 c4 _ _ _
              (parse_log_config_lem e (at "log" j) c3) (last_section-Reads j c4))))

  -- Whether a file is there and starts with a complete value.
  abbrev pub is_loadable : String → e.file.Disk → Bool
  is_loadable filename disk =
      e.file.open_in filename disk
      && any_option is_complete (e.json.parse_first (e.file.read filename disk))

  -- loadFromFile gives false, and then the file is not there, starts with no JSON value, or lacks
  -- a setting; or it gives true, and then the settings are those of the file, but for those of the
  -- mail where that section is missing, which stay.
  pub load_from_file_lem :
      (filename : String) (disk : e.file.Disk) (c : Config)
      → (((load_from_file e filename disk c).0 ≡ ok false) × (is_loadable filename disk ≡ false))
        ⊎ ((j : Json) × (e.json.parse_first (e.file.read filename disk) ≡ some j)
            × (load_from_file e filename disk c ≡ (ok true, configured j c))
            × (is_loadable filename disk ≡ true))
  unfolding load_from_file read_sections false_on_exception
  load_from_file_lem filename disk c =
      elim (Option-cases (e.json.parse_first (e.file.read filename disk))) [
        | inl n ↦ grind arith
        | inr (j, y) ↦ let l = parse_sections-Reads j c in grind arith
      ]
