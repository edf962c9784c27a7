-- ===== src/Handler/Header.antt =====
-- `on_request_header` of src/server/hrb/SessionHandler.ipp: who sends a request, and how its body is
-- read. What redis says of a session or a guest is an argument.
use hearty_rabbit.Prelude.{
  Bool, true, not, ◌&&◌, [], ◌∷◌, Option, none, some, if◌then◌else◌, Bytes, codes, bytes_eq,
}
use hearty_rabbit.Escape.Hex.{HexCodec, hex_to_array}
use hearty_rabbit.StringFields
use hearty_rabbit.StringFields.{urlform}
use hearty_rabbit.Redis.Reply.{Error, is_error}
use hearty_rabbit.UserId.{UserId, nobody, of_session, valid, parse_cookie}
use hearty_rabbit.Url.Types.{Action, UrlIntent}
use hearty_rabbit.Url.Parse.{parse}
use hearty_rabbit.Handler.Request.{
  Request, Method, get_, post_, put_, BodyType, string_type, upload_type, empty_type,
}

-- What the handler has found out when it completes: `m_auth`, `m_request_session_id`, the type of the
-- body and the error.
pub record Known : Type 0 where
  pub auth : UserId
  pub session : Option Bytes
  pub body_type : BodyType
  pub ec : Error

-- The one value of a form field, or the empty text.
abbrev pub form_value : Bytes → Bytes → Bytes
form_value text name = elim (StringFields.find urlform text (name ∷ [])) [ [] ↦ [] | v ∷ vs ↦ v ]

unfoldable pub body_type_of : Error → Action → Method → BodyType
body_type_of ec Action.upload put_ = if is_error ec then empty_type else upload_type
body_type_of ec Action.api post_ = if is_error ec then empty_type else string_type
body_type_of ec action method = empty_type

-- The callback of `is_shared_resource`.
unfoldable pub on_shared : UserId → Bool × Error → Known
on_shared auth (is_shared, err) = record {
  auth = if not (is_error err) && is_shared then auth else nobody;
  session = none;
  body_type = empty_type;
  ec = err;
}

module _ (h : HexCodec) (verify : Bytes → Error × UserId)
    (shared : UserId → Bytes → Bool × Error) where
  unfoldable pub known_guest : UrlIntent → Method → Option Bytes → Known
  unfolding on_shared
  known_guest intent get_ (some key) =
      let auth = of_session key intent.user true in on_shared auth (shared auth intent.coll)
  known_guest intent method key = record {
    auth = nobody;
    session = none;
    body_type = empty_type;
    ec = Error.ok;
  }

  unfoldable pub known_session : UrlIntent → Method → Option Bytes → Known
  unfolding known_guest body_type_of hex_to_array
  known_session intent method none =
      known_guest intent method (hex_to_array h 16 (form_value intent.option (codes "auth")))
  known_session intent method (some session) =
      let (ec, auth) = verify session in
      record {
        auth = auth;
        session = some session;
        body_type = body_type_of ec intent.action method;
        ec = ec;
      }

  unfoldable pub known_of : UrlIntent → Request → Known
  unfolding known_session parse_cookie
  known_of intent req = known_session intent req.method (parse_cookie h req.cookie)

  unfoldable pub header_of : Action → UrlIntent → Request → Known
  unfolding known_of
  header_of Action.login intent req = record {
    auth = nobody;
    session = none;
    body_type = string_type;
    ec = Error.ok;
  }
  header_of action intent req = known_of intent req

  unfoldable pub on_request_header : Request → Known
  unfolding header_of parse
  on_request_header req = let intent = parse req.target in header_of intent.action intent req

-- Whether the response sets a cookie.
unfoldable pub renewed_auth : Option Bytes → UserId → Bool
renewed_auth (some session) auth = not (bytes_eq session auth.session)
renewed_auth none auth = valid auth && not auth.guest
