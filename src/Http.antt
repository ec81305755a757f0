-- ===== src/Http.antt =====
-- src/common/net.h and src/utils/JsonUtil.{h,cpp}: the parts of Beast's messages that the program
-- reads and writes, and the responses that it builds.
pub mod Steady
use hm_music_player_back_end.Prelude.{
  ℕ, String, code, ltb, Bool, true, ◌&&◌, ◌≡◌, some, List, [], ◌∷◌,
}
use hm_music_player_back_end.Prelude.Dict.{assign}
use hm_music_player_back_end.Prelude.Effect.{pure, ◌>>=◌}
use hm_music_player_back_end.External.{External, Init, string, number, braces, Inits, nil, cons}
use hm_music_player_back_end.App.{App, json_call}

pub data Verb : Type 0 where
  get post other : Verb

-- `authorization` is `req["Authorization"]`, empty where the header is missing.
pub record HttpRequest : Type 0 where
  pub method : Verb
  pub target : String
  pub version : ℕ
  pub authorization : String
  pub body : String
  pub need_eof : Bool

pub data Status : Type 0 where
  success bad_request unauthorized not_found conflict internal_server_error : Status

-- Without the Content-Length of `prepare_payload`.
pub record HttpResponse : Type 0 where
  pub status : Status
  pub version : ℕ
  pub fields : List (String × String)
  pub body : String

-- `{key, value}` inside the braces of a `json`.
abbrev pub pair : String → Init → Init
pair key value = braces (cons (string key) (cons value nil))

abbrev pub inits : List Init → Inits
inits [] = nil
inits (i ∷ is) = cons i (inits is)

abbrev pub object : List Init → Init
object is = braces (inits is)

abbrev pub standard_fields : List (String × String)
standard_fields =
    assign "Server" "MusicPlayer-BackEnd" (assign "Content-Type" "application/json" [])

abbrev pub response : Status → ℕ → String → HttpResponse
response status version body = record {
  status = status;
  version = version;
  fields = standard_fields;
  body = body;
}

module _ {e : External} where
  unfoldable pub build_error_response : Status → ℕ → String → App e HttpResponse
  unfolding json_call
  build_error_response status version message = do
    body ← json_call (e.json.dump (object (pair "error" (string message) ∷ [])))
    pure (response status version body)

  -- The argument is the text that the callers dump.
  unfoldable pub build_success_response : ℕ → String → App e HttpResponse
  build_success_response version json_msg = pure (response success version json_msg)

  -- `buildSuccessResponse(version, json{…}.dump())`
  unfoldable pub respond : ℕ → Init → App e HttpResponse
  unfolding build_success_response json_call
  respond version content = do
    json_msg ← json_call (e.json.dump content)
    build_success_response version json_msg

-- `res.set(name, value)`
abbrev pub set_field : String → String → HttpResponse → HttpResponse
set_field name value res = record res { fields = assign name value res.fields }

-- Whether a text, and all texts of an initialiser, are ASCII.
abbrev pub is_ascii : String → Bool
is_ascii String.[] = true
is_ascii (String.◌∷◌ c s) = ltb (code c) 128 && is_ascii s

unfoldable mutual
  pub ascii_init : Init → Bool
  ascii_init (string s) = is_ascii s
  ascii_init (number n) = true
  ascii_init (braces is) = ascii_inits is

  pub ascii_inits : Inits → Bool
  ascii_inits nil = true
  ascii_inits (cons i is) = ascii_init i && ascii_inits is

-- nlohmann::json dumps texts in ASCII; its exception is for those that are not UTF-8.
abbrev pub DumpsAscii : External → Type 0
DumpsAscii e = (i : Init) → ascii_init i ≡ true → (s : String) × (e.json.dump i ≡ some s)
