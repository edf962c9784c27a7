-- ===== src/Handler/Serve.antt =====
-- src/server/net/Session.cc: a request from its header to the handler's answer. Reading from the
-- socket is left out; the body that was sent comes as a text and as an uploaded file.
use hearty_rabbit.Prelude.{
  Bool, true, false, not, ◌&&◌, ◌||◌, [], ◌∷◌, Option, none, some, if◌then◌else◌, Bytes, codes,
  is_empty, is_prefix, ◌==◌, get_or,
}
use hearty_rabbit.Escape.Hex.{HexCodec}
use hearty_rabbit.Redis.Reply.{Error, is_error}
use hearty_rabbit.UserId.{UserId}
use hearty_rabbit.Handler.Request.{
  Method, other_, Body, empty_body, string_body, upload_body, BodyType, empty_type, string_type,
  upload_type, Upload, Request, Answer, respond, bad_request,
}
use hearty_rabbit.Handler.Header.{Known, on_request_header}
use hearty_rabbit.Handler.Body.{on_request_body}

-- `target.find("..") != npos`
unfoldable pub has_dots : Bytes → Bool
has_dots [] = false
has_dots (c ∷ s) = let rest = has_dots s in is_prefix (codes "..") (c ∷ s) || rest

unfoldable pub is_known : Method → Bool
is_known other_ = false
is_known _ = true

unfoldable pub is_path : Bytes → Bool
unfolding has_dots
is_path target = not (is_empty target) && (get_or target 0 0 == b'/') && not (has_dots target)

-- `none` where the request is handled.
unfoldable pub validate_request : Request → Option Answer
unfolding is_known is_path
validate_request req =
    if is_known req.method
    then (if is_path req.target then none else some (bad_request (codes "Illegal request-target")))
    else some (bad_request (codes "Unknown HTTP-method"))

-- `init_request_body` chooses the parser, and so the type of the request.
unfoldable pub body_of : BodyType → Bytes → Upload → Body
body_of empty_type text stored = empty_body
body_of string_type text stored = string_body text
body_of upload_type text stored = upload_body stored

module _ (h : HexCodec) (verify : Bytes → Error × UserId)
    (shared : UserId → Bytes → Bool × Error) where
  -- `server_error` after an error.
  unfoldable pub on_header : Known → Request → Bytes → Upload → Answer
  unfolding body_of on_request_body
  on_header known req text stored =
      if is_error known.ec
      then respond 500
      else on_request_body h known.auth req (body_of known.body_type text stored)

  unfoldable pub serve_valid : Option Answer → Request → Bytes → Upload → Answer
  unfolding on_header on_request_header
  serve_valid (some a) req text stored = a
  serve_valid none req text stored =
      on_header (on_request_header h verify shared req) req text stored

  unfoldable pub serve : Request → Bytes → Upload → Answer
  unfolding serve_valid validate_request
  serve req text stored = serve_valid (validate_request req) req text stored
