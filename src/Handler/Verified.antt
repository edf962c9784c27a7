-- ===== src/Handler/Verified.antt =====
-- src/server/hrb/SessionHandler.ipp with src/server/net/Session.cc: a change to what a user has needs
-- that user's session.
use hearty_rabbit.Prelude.{
  ◌≡◌, ◌≢◌, ◌⊎◌, inl, inr, refl, sym, ap, ◌∙◌, Bool, true, false, not, ◌&&◌, [], Option, none, some,
  Bytes, codes, Bool-cases, Option-cases, arith,
}
use hearty_rabbit.Escape.Hex.{HexCodec, hex_to_array}
use hearty_rabbit.Redis.Reply.{Error, is_error}
use hearty_rabbit.UserId.{UserId, nobody, of_session, parse_cookie}
use hearty_rabbit.Url.Types.{Action}
use hearty_rabbit.Url.Parse.{parse}
use hearty_rabbit.Handler.Request.{
  Method, get_, post_, put_, delete_, head_, other_, Body, BodyType, empty_type, Upload, Request,
  Answer, respond, bad_request, not_found, not_modified, file, log_in, log_out, list_albums,
  list_publics, show_album, json_album, find_duplicates, read_blob, read_inode, meta, content,
  change, share, list_guests, upload, undefined,
}
use hearty_rabbit.Handler.Header.{
  Known, on_shared, known_guest, known_session, known_of, header_of, on_request_header, form_value,
}
use hearty_rabbit.Handler.Blob.{no_error}
use hearty_rabbit.Handler.Body.{on_request_body}
use hearty_rabbit.Handler.Owner.{IsOwn, is_file, acts_for}
use hearty_rabbit.Handler.Owner.Pages.{request-IsFine}
use hearty_rabbit.Handler.Serve.{
  body_of, on_header, serve_valid, serve, validate_request, is_known, is_path,
}

-- Filling in missing timestamps, when an album is sent as JSON.
abbrev pub is_repair : Answer → Bool
is_repair (json_album user owner coll) = true
is_repair _ = false

-- It is for the user that sent the request, who is no guest unless a file was sent or
-- timestamps are filled in.
own_acts :
    (sent : Bool) (auth : UserId) (a : Answer) (owner : Bytes)
    → IsOwn sent auth a
    → acts_for a ≡ some owner
    → (auth.user ≡ owner) × ((auth.guest ≡ false) ⊎ (sent ≡ true) ⊎ (is_repair a ≡ true))
own_acts sent auth (change o c) owner (g, u) e = (u ∙ cc, inl g)
own_acts sent auth (share o coll) owner (g, u) e = (u ∙ cc, inl g)
own_acts sent auth (list_guests o coll) owner (g, u) e = (u ∙ cc, inl g)
own_acts sent auth (upload o c phash) owner (s, u) e = (u ∙ cc, inr (inl s))
own_acts sent auth (json_album user o coll) owner u e = (u ∙ cc, inr (inr refl))
own_acts sent auth (respond n) owner k e = cc
own_acts sent auth (bad_request n) owner k e = cc
own_acts sent auth (not_found n) owner k e = cc
own_acts sent auth (not_modified n) owner k e = cc
own_acts sent auth (file n m) owner k e = cc
own_acts sent auth (log_in n m) owner k e = cc
own_acts sent auth log_out owner k e = cc
own_acts sent auth (list_albums n m) owner k e = cc
own_acts sent auth (list_publics n m) owner k e = cc
own_acts sent auth (show_album n m o p) owner k e = cc
own_acts sent auth (find_duplicates n m o) owner k e = cc
own_acts sent auth (read_blob n m o p) owner k e = cc
own_acts sent auth (read_inode n m o) owner k e = cc
own_acts sent auth (meta n) owner k e = cc
own_acts sent auth (content n m o) owner k e = cc
own_acts sent auth undefined owner k e = cc

refused : (req : Request) (a : Answer) → validate_request req ≡ some a → acts_for a ≡ none
unfolding validate_request
refused req a e = elim (Bool-cases (is_known req.method)) [
  | inr n ↦
      let made : some (bad_request (codes "Unknown HTTP-method")) ≡ some a = rw n at e in
      let same : a ≡ bad_request (codes "Unknown HTTP-method") = cc in rw same
  | inl y ↦ elim (Bool-cases (is_path req.target)) [
    | inl p ↦ let bad : none ≡ some a = rw (y, p) at e in cc
    | inr n ↦
        let made : some (bad_request (codes "Illegal request-target")) ≡ some a = rw (y, n) at e in
        let same : a ≡ bad_request (codes "Illegal request-target") = cc in rw same
  ]
]

empty_body_of :
    (t : BodyType) (text : Bytes) (stored : Upload)
    → t ≡ empty_type
    → is_file (body_of t text stored) ≡ false
unfolding body_of
empty_body_of t text stored e = rw e

module _ (h : HexCodec) (verify : Bytes → Error × UserId)
    (shared : UserId → Bytes → Bool × Error) where
  -- The session cookie of the request is that of the user.
  abbrev pub IsVerified : Request → Bytes → Type 0
  IsVerified req owner =
      (session : Bytes) × (parse_cookie h req.cookie ≡ some session)
      × ((verify session).0 ≡ Error.ok)
      × ((verify session).1.user ≡ owner)

  -- The request has no session but the key of a share: it gets something of an album of a user, who
  -- has shared this album by that key.
  abbrev pub IsShared : Request → Bytes → Type 0
  IsShared req owner =
      (key : Bytes) × (req.method ≡ get_)
      × (hex_to_array h 16 (form_value (parse req.target).option (codes "auth")) ≡ some key)
      × ((parse req.target).user ≡ owner)
      × ((shared (of_session key (parse req.target).user true) (parse req.target).coll).0 ≡ true)

  -- What is known of a request: nobody sent it, or a guest without a file, or its cookie was verified.
  abbrev Told : Request → Known → Type 0
  Told req k =
      (k.auth ≡ nobody)
      ⊎ ((k.auth.guest ≡ true) × (k.body_type ≡ empty_type) × IsShared req k.auth.user)
      ⊎ ((session : Bytes) × (parse_cookie h req.cookie ≡ some session)
          × (k.ec ≡ (verify session).0)
          × (k.auth ≡ (verify session).1))

  shared-Told :
      (req : Request) (key : Bytes) (r : Bool × Error)
      → req.method ≡ get_
      → hex_to_array h 16 (form_value (parse req.target).option (codes "auth")) ≡ some key
      → shared (of_session key (parse req.target).user true) (parse req.target).coll ≡ r
      → Told req (on_shared (of_session key (parse req.target).user true) r)
  unfolding on_shared of_session
  shared-Told req key (is_shared, err) got e q =
      elim (Bool-cases (not (is_error err) && is_shared)) [
        | inl y ↦
            let granted : is_shared ≡ true = ground arith in
            inr (inl (rw y (refl, refl, (key, got, e, refl, ap (λ r. r.0) q ∙ granted))))
        | inr n ↦ inl (rw n)
      ]

  guest-Told :
      (req : Request) (m : Method) (o : Option Bytes)
      → req.method ≡ m
      → hex_to_array h 16 (form_value (parse req.target).option (codes "auth")) ≡ o
      → Told req (known_guest h verify shared (parse req.target) m o)
  unfolding known_guest
  guest-Told req get_ (some key) got e = shared-Told req key _ got e refl
  guest-Told req get_ none got e = inl refl
  guest-Told req post_ o got e = inl refl
  guest-Told req put_ o got e = inl refl
  guest-Told req delete_ o got e = inl refl
  guest-Told req head_ o got e = inl refl
  guest-Told req other_ o got e = inl refl

  session-Told :
      (req : Request) (o : Option Bytes)
      → parse_cookie h req.cookie ≡ o
      → Told req (known_session h verify shared (parse req.target) req.method o)
  unfolding known_session
  session-Told req none e = guest-Told req req.method _ refl refl
  session-Told req (some session) e = inr (inr (session, e, refl, refl))

  known-Told : (req : Request) → Told req (known_of h verify shared (parse req.target) req)
  unfolding known_of
  known-Told req = session-Told req (parse_cookie h req.cookie) refl

  header-Told :
      (req : Request) (a : Action) → Told req (header_of h verify shared a (parse req.target) req)
  unfolding header_of
  header-Told req Action.login = inl refl
  header-Told req Action.view = known-Told req
  header-Told req Action.upload = known-Told req
  header-Told req Action.api = known-Told req
  header-Told req Action.home = known-Told req
  header-Told req Action.query = known-Told req
  header-Told req Action.lib = known-Told req
  header-Told req Action.logout = known-Told req
  header-Told req Action.none = known-Told req

  Told-IsVerified :
      (req : Request) (k : Known) (body : Body) (a : Answer) (owner : Bytes)
      → Told req k
      → (k.body_type ≡ empty_type → is_file body ≡ false)
      → is_error k.ec ≡ false
      → owner ≢ []
      → IsOwn (is_file body) k.auth a
      → acts_for a ≡ some owner
      → IsVerified req owner ⊎ (IsShared req owner × (is_repair a ≡ true))
  Told-IsVerified req k body a owner (inl e) empty ok named own acts =
      absurd (named (sym (own_acts (is_file body) k.auth a owner own acts).0 ∙ ap (λ x. x.user) e))
  Told-IsVerified req k body a owner (inr (inl (guest, t, by_key))) empty ok named own acts =
      let (same, how) = own_acts (is_file body) k.auth a owner own acts in
      let repair : is_repair a ≡ true = ground (arith, guest, empty t, how) in
      inr (rw same at by_key, repair)
  Told-IsVerified req k body a owner (inr (inr (session, c, e, u))) empty ok named own acts = inl (
    session,
    c,
    no_error (verify session).0 (rw (← e) ok),
    ap (λ x. x.user) (sym u) ∙ (own_acts (is_file body) k.auth a owner own acts).0,
  )

  -- A request changes, shares or uploads to what a named user has only if it comes with a session
  -- cookie that is verified as that user's, but for one case: a request with a key by which the user
  -- shares the album of the URL, when it gets the album as JSON, has missing timestamps filled in for
  -- the user's inodes. An unnamed user stands for nobody: a request without a session is taken for
  -- theirs.
  pub serve-IsVerified :
      (req : Request) (text : Bytes) (stored : Upload) (owner : Bytes)
      → owner ≢ []
      → acts_for (serve h verify shared req text stored) ≡ some owner
      → IsVerified req owner
        ⊎ (IsShared req owner × (is_repair (serve h verify shared req text stored) ≡ true))
  unfolding serve serve_valid on_header on_request_header
  serve-IsVerified req text stored owner named acts = elim (Option-cases (validate_request req)) [
    | inr (a, e) ↦
        let bad : acts_for a ≡ some owner = rw e at acts in
        let bad2 : none ≡ some owner = rw (refused req a e) at bad in cc
    | inl v ↦
        let k = on_request_header h verify shared req in
        elim (Bool-cases (is_error k.ec)) [
          | inl y ↦ let bad : none ≡ some owner = rw (v, y) at acts in cc
          | inr n ↦
              rw (v, n)
                (Told-IsVerified req k (body_of k.body_type text stored)
                  (on_request_body h k.auth req (body_of k.body_type text stored)) owner
                  (header-Told req (parse req.target).action)
                  (empty_body_of k.body_type text stored) n named
                  (request-IsFine h k.auth req (body_of k.body_type text stored))
                  (rw (v, n) at acts))
        ]
  ]
