-- ===== src/Session.antt =====
-- src/server/Session.{h,cpp}: one connection of a client.
pub mod Answers
pub mod Conversation
use hm_music_player_back_end.Prelude.{String, Bool, not, List, [], ◌∷◌, if◌then◌else◌}
use hm_music_player_back_end.Prelude.Effect.{
  Exception, json_exception, sql_exception, std_exception, Result, ok, throw, fault, pure,
  undefined, ◌>>=◌,
}
use hm_music_player_back_end.External.{External}
use hm_music_player_back_end.App.{World, App}
use hm_music_player_back_end.Http.{
  HttpRequest, HttpResponse, internal_server_error, build_error_response,
}
use hm_music_player_back_end.Router.{Router, handle_router}

pub what : External → Exception → String
what e json_exception = e.json_what
what e sql_exception = e.sql_what
what e (std_exception message) = message

-- What `async_read` and `async_write` report for one turn: an error or the end of the stream, or a
-- request and whether its response was written.
pub data Turn : Type 0 where
  unread : Turn
  received : HttpRequest → Bool → Turn

module _ {e : External} where
  recover_all : HttpRequest → Result HttpResponse → App e HttpResponse
  recover_all request (throw x) =
      build_error_response internal_server_error request.version (what e x)
  recover_all request (ok res) = pure res
  recover_all request fault = undefined

  unfoldable pub handle_request : Router e → HttpRequest → App e HttpResponse
  unfolding recover_all what
  handle_request router request w =
      let (r, v) = handle_router router request w in recover_all request r v

  -- `doRead`, `handleRequest` and `doWrite` in turn, with the responses that were written.
  unfoldable pub run : Router e → List Turn → App e (List HttpResponse)
  run router [] = pure []
  run router (unread ∷ turns) = pure []
  run router (received request written ∷ turns) = do
    response ← handle_request router request
    if not written
        then pure []
        else if request.need_eof
        then pure (response ∷ [])
        else do responses ← run router turns; pure (response ∷ responses)
