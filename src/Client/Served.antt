-- ===== src/Client/Served.antt =====
-- The requests of src/client/http/HRBClient.ipp at the server: src/server/net/Session.cc and
-- src/server/hrb/SessionHandler.ipp take each for what the client meant.
use hearty_rabbit.Prelude.{
  ◌≡◌, ◌∙◌, Bool, true, false, not, some, Bytes, is_empty, Bool-cases, inl, inr,
}
use hearty_rabbit.Escape.Hex.{HexCodec, HexLaws}
use hearty_rabbit.Redis.Reply.{Error}
use hearty_rabbit.UserId.{UserId, valid, cookie, parse_cookie}
use hearty_rabbit.UserId.Laws.{IsSession, parse_cookie-set_cookie}
use hearty_rabbit.Url.Types.{UrlIntent}
use hearty_rabbit.Url.Parse.{parse}
use hearty_rabbit.Url.Write.{str, path}
use hearty_rabbit.Handler.Request.{Method, Upload, Request}
use hearty_rabbit.Handler.Header.{
  on_request_header, header_of, known_of, known_session, body_type_of,
}
use hearty_rabbit.Handler.Body.{on_request_body, on_action}
use hearty_rabbit.Handler.Serve.{
  serve, serve_valid, validate_request, is_path, is_known, has_dots, body_of, on_header,
}
use hearty_rabbit.Client.{Client, Content, request}

-- A path begins with a slash, so only dots keep it from being served.
is_path-str : (i : UrlIntent) → is_path (str i) ≡ not (has_dots (str i))
unfolding is_path str path
is_path-str i = elim (Bool-cases (is_empty i.option)) [ inl y ↦ rw y | inr n ↦ rw n ]

module _ (h : HexCodec) (laws : HexLaws h) (verify : Bytes → Error × UserId)
    (shared : UserId → Bytes → Bool × Error) (c : Client) (auth : UserId) where
  -- The client is logged in, and the server knows its session.
  pub record IsLoggedIn : Type 0 where
    pub has_session : valid c.user ≡ true
    pub session : IsSession c.user.session
    pub verified : verify c.user.session ≡ (Error.ok, auth)

  module _ (i : UrlIntent) (method : Method) (content : Content) where
    abbrev sent : Request
    sent = (request h c i method content).request

    known_sent :
        IsLoggedIn
        → parse (str i) ≡ i
        → known_of h verify shared i sent ≡ record {
          auth = auth;
          session = some c.user.session;
          body_type = body_type_of Error.ok i.action method;
          ec = Error.ok;
        }
    unfolding known_of known_session request
    known_sent logged back =
        let cookie_read : parse_cookie h (cookie h c.user) ≡ some c.user.session =
          (parse_cookie-set_cookie h laws c.user 0 logged.session).0 ∙ rw logged.has_session in
        rw (cookie_read, logged.verified)

    -- A request of a client that is logged in reaches the handler, with its body if the server reads
    -- one.
    pub serve-sent :
        (text : Bytes) (stored : Upload)
        → IsLoggedIn
        → parse (str i) ≡ i
        → ((u : UrlIntent) (req : Request)
            → header_of h verify shared i.action u req ≡ known_of h verify shared u req)
        → is_known method ≡ true
        → has_dots (str i) ≡ false
        → serve h verify shared sent text stored
          ≡ on_action h auth i.action sent
              (body_of (body_type_of Error.ok i.action method) text stored)
              i
    unfolding serve serve_valid validate_request on_header on_request_header on_request_body request
    serve-sent text stored logged back no_login known dots =
        rw (known, is_path-str i, dots, back, no_login, known_sent logged back)
