-- ===== src/Examples/World.antt =====
-- Worlds to run the program in, and the hypotheses of its theorems in them.
use hm_music_player_back_end.Prelude.{
  ℤ, pos, String, ◌≡◌, refl, true, none, some, Option, List, [], ◌∷◌,
}
use hm_music_player_back_end.External.{done}
use hm_music_player_back_end.Decimal.{atoi}
use hm_music_player_back_end.Password.{hash_password}
use hm_music_player_back_end.Pool.{Pool}
use hm_music_player_back_end.VerifyService.{Codes}
use hm_music_player_back_end.App.{World}
use hm_music_player_back_end.App.Steady.{HasFront}
use hm_music_player_back_end.Http.{HttpRequest, Verb, DumpsAscii}
use hm_music_player_back_end.Jwt.{JwtUtil, jwt_util, and_then}
use hm_music_player_back_end.UserHandler.Steady.{IdFits}
use hm_music_player_back_end.UserHandler.Registration.{IsRegistration}
use hm_music_player_back_end.UserHandler.Login.{IsLogin}
use hm_music_player_back_end.Examples.Outside.{outside, Entry, decoded, entry_of}

abbrev pub pool : Pool
pool = record { connections = 1 ∷ 2 ∷ []; arrivals = []; db_name = "MusicPlayer" }

abbrev pub codes : Codes
codes = ("a@b.c", record { code = "000000"; expire_time = pos 100; action = "register" }) ∷ []

abbrev pub world_of : List Entry → World outside
world_of entries = record {
  db = record { entries = entries; last = 0 };
  pool = pool;
  codes = codes;
  net = 0;
  disk = [];
  config = record {
    smtp_server_url = "smtp";
    smtp_user = "music";
    smtp_password = "p";
    verification_code_expiry = pos 300;
    email_from = "music@b.c";
  };
  clock = pos;
  reads = 0;
  dice = λ n. 7;
  rolls = 0;
}

abbrev pub ann : Entry
ann = entry_of 1 "ann" (hash_password outside "p") "a@b.c"

-- Without accounts, and with one.
abbrev pub empty_world : World outside
empty_world = world_of []

abbrev pub ann_world : World outside
ann_world = world_of (ann ∷ [])

abbrev pub at_front : HasFront pool.connections
at_front = (1, 2 ∷ [], refl)

abbrev pub request : Verb → String → String → String → HttpRequest
request method target authorization body = record {
  method = method;
  target = target;
  version = 11;
  authorization = authorization;
  body = body;
  need_eof = true;
}

abbrev pub util : JwtUtil
util = jwt_util "secret"

pub outside-DumpsAscii : DumpsAscii outside
outside-DumpsAscii i h = ("{}", refl)

id_read :
    (token claim : String) (o : Option ℤ)
    → atoi token ≡ o
    → and_then (decoded token o) done ≡ done claim
    → (i : ℤ) × (atoi claim ≡ some i)
id_read token claim none h d = cc
id_read token claim (some i) h d = (i, cc)

pub outside-IdFits : (u : JwtUtil) (authorization : String) → IdFits outside u authorization
outside-IdFits u authorization d t claim decodes verified claims = id_read d claim _ refl claims

pub registration : IsRegistration outside "register" "ann" "p" "a@b.c" "000000"
registration = record {
  json =
      ("username", "ann") ∷ ("password", "p") ∷ ("email", "a@b.c") ∷ ("verify_code", "000000") ∷ [];
  parses = refl;
  has_username = refl;
  has_password = refl;
  has_email = refl;
  has_code = refl;
  reads_username = refl;
  reads_password = refl;
  reads_email = refl;
  reads_code = refl;
}

pub right-IsLogin : IsLogin outside "login" "ann" "p"
right-IsLogin = record {
  json = ("username", "ann") ∷ ("password", "p") ∷ [];
  parses = refl;
  has_username = refl;
  has_password = refl;
  reads_username = refl;
  reads_password = refl;
}

pub wrong-IsLogin : IsLogin outside "guess" "ann" "q"
wrong-IsLogin = record {
  json = ("username", "ann") ∷ ("password", "q") ∷ [];
  parses = refl;
  has_username = refl;
  has_password = refl;
  reads_username = refl;
  reads_password = refl;
}
