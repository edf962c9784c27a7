-- ===== src/Client/Sessions.antt =====
-- Log-in and uploads between src/client/http/HRBClient.ipp and the server: what the client makes of
-- the answers.
use hearty_rabbit.Prelude.{
  ℕ, ◌≡◌, ◌∙◌, refl, ap, Bool, true, false, [], ◌∷◌, ◌++◌, none, some, Bytes, codes, IsBytes,
}
use hearty_rabbit.Escape.Hex.{HexCodec, HexLaws}
use hearty_rabbit.Redis.Reply.{Error}
use hearty_rabbit.UserId.{UserId, valid, set_cookie, parse_cookie, of_cookie}
use hearty_rabbit.UserId.Laws.{IsSession, parse_cookie-set_cookie}
use hearty_rabbit.ObjectId.{IsObjectId}
use hearty_rabbit.Url.Types.{Action, UrlIntent}
use hearty_rabbit.Url.Parse.{parse, trim}
use hearty_rabbit.Url.Write
use hearty_rabbit.Url.Write.{str, path, of_action, of_name, of_blob}
use hearty_rabbit.Url.Segments.{IsUser}
use hearty_rabbit.Url.RoundTrip.{parse-str}
use hearty_rabbit.Url.Intents.{parse-str-of_blob}
use hearty_rabbit.Handler.Request.{Upload, log_in}
use hearty_rabbit.Handler.Header.{on_request_header, header_of}
use hearty_rabbit.Handler.Body.{
  on_request_body, on_action, on_login_body, on_login, upload_location,
}
use hearty_rabbit.Handler.Serve.{
  serve, serve_valid, validate_request, on_header, is_known, is_path, has_dots, body_of,
}
use hearty_rabbit.Client
use hearty_rabbit.Client.{
  Client, Outgoing, Response, Content, text, send, done, login, handle_upload_response,
}
use hearty_rabbit.Client.Forms.{IsValue, login_read}

module _ (h : HexCodec) where
  login_back : parse (codes "/login") ≡ of_action Action.login
  unfolding of_action str path
  login_back = parse-str (of_action Action.login) (refl, refl, refl, refl, refl)

  -- The server takes the form that `login` sends for the user name and the password, if neither has a
  -- separator of a form in it.
  pub login-asked :
      (verify : Bytes → Error × UserId) (shared : UserId → Bytes → Bool × Error) (c : Client)
      (username password : Bytes) (stored : Upload)
      → IsValue username
      → IsValue password
      → (out : Outgoing) × (form : Bytes) × ((login username password c).requests
          ≡ c.requests ++ out ∷ [])
        × (out.content ≡ text form)
        × (serve h verify shared out.request form stored ≡ log_in username password)
  unfolding login send serve serve_valid validate_request is_known is_path has_dots on_header
      on_request_header header_of body_of on_request_body on_action on_login_body on_login of_action
  login-asked verify shared c username password stored hu hp =
      let (user_read, password_read) = login_read username password hu hp in
      (_, _, refl, refl, rw (login_back, user_read, password_read))

module _ (h : HexCodec) (laws : HexLaws h) where
  -- The answer to a log-in that succeeds, whose cookie is that of the new session, leaves the client
  -- with this session and with the name that it logged in with; the request is over.
  pub on_login-set_cookie :
      (req : ℕ) (username body : Bytes) (auth : UserId) (session_length : ℕ) (ec : Error)
      (c : Client)
      → valid auth ≡ true
      → IsSession auth.session
      → Client.on_login h req username
          (record {
            result = 204;
            body = body;
            set_cookie = some (set_cookie h auth session_length);
            location = none;
          })
          ec
          c
        ≡ some (
          record (done req c) {
            user = record { session = auth.session; user = username; guest = false };
          },
          ec,
        )
  unfolding Client.on_login of_cookie
  on_login-set_cookie req username body auth session_length ec c v s =
      let decoded : parse_cookie h (set_cookie h auth session_length) ≡ some auth.session =
        (parse_cookie-set_cookie h laws auth session_length s).1 ∙ rw v in
      rw decoded

  -- The answer to an upload tells the client the user, the album and the ID of the blob that was
  -- stored.
  pub upload-location :
      (auth : UserId) (intent : UrlIntent) (id body : Bytes) (ec : Error)
      → IsUser (trim auth.user)
      → IsBytes intent.coll
      → IsObjectId id
      → (i : UrlIntent) × (handle_upload_response
            (record {
              result = 201;
              body = body;
              set_cookie = none;
              location = some (upload_location h auth intent id);
            })
            ec
          ≡ (i, ec))
        × (i.action ≡ Action.api)
        × (i.user ≡ trim auth.user)
        × (i.coll ≡ trim intent.coll)
        × (Write.blob h i ≡ some id)
  unfolding handle_upload_response upload_location of_blob str path
  upload-location auth intent id body ec hu hc hi =
      let (back, reads) =
        parse-str-of_blob h laws Action.api auth.user intent.coll id [] refl hu hc hi in
      (
        of_blob h Action.api auth.user intent.coll id [],
        ap (λ i. (i, ec)) back,
        refl,
        refl,
        refl,
        rw back at reads,
      )
