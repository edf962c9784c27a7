-- ===== src/Handler/Owner/Pages.antt =====
-- src/server/hrb/SessionHandler.ipp: who may change what a user has, for all requests.
use hearty_rabbit.Prelude.{
  ℕ, ◌≡◌, ◌⊎◌, inl, inr, refl, Bool, true, false, Option, none, some, Bytes, bytes_eq,
  bytes_eq_sound, ◌==◌, Bool-cases, arith,
}
use hearty_rabbit.Escape.Hex.{HexCodec}
use hearty_rabbit.UserId.{UserId, valid}
use hearty_rabbit.Url.Types.{Action, QueryTarget, UrlIntent}
use hearty_rabbit.Url.Parse.{parse}
use hearty_rabbit.Handler.Request.{
  Method, get_, post_, delete_, put_, head_, other_, Body, empty_body, string_body, upload_body,
  Saved, Upload, Request, form_type, blob_request,
}
use hearty_rabbit.Handler.Body.{
  on_login, scan_collection, query_id, query_set, query_of, save_upload, sized_upload, on_upload,
  get_page, on_empty, on_file, on_body, on_login_body, on_action, on_request_body,
}
use hearty_rabbit.BlobInode.{BlobInode}
use hearty_rabbit.Collection.{Collection}
use hearty_rabbit.Handler.Owner.{IsOwn, is_file, IsFine, api-IsFine, view-IsFine}

module _ (h : HexCodec) (auth : UserId) (sent : Bool) where
  scan-IsFine :
      (intent : UrlIntent) (o : Option Bytes) → IsFine h auth sent (scan_collection h auth intent o)
  unfolding scan_collection
  scan-IsFine intent none = tt
  scan-IsFine intent (some user) = elim (Bool-cases (bytes_eq auth.user user)) [
    | inl y ↦ rw y (bytes_eq_sound auth.user user y)
    | inr n ↦ rw n tt
  ]

  id-IsFine :
      (intent : UrlIntent) (o : Option Bytes) → IsFine h auth sent (query_id h auth intent o)
  unfolding query_id
  id-IsFine intent none = tt
  id-IsFine intent (some id) = tt

  set-IsFine :
      (intent : UrlIntent) (o p : Option Bytes) → IsFine h auth sent (query_set h auth intent o p)
  unfolding query_set
  set-IsFine intent (some user) p = tt
  set-IsFine intent none (some coll) = refl
  set-IsFine intent none none = tt

  query-IsFine :
      (q : QueryTarget) (intent : UrlIntent) → IsFine h auth sent (query_of h auth q intent)
  unfolding query_of
  query-IsFine QueryTarget.collection intent = scan-IsFine intent _
  query-IsFine QueryTarget.blob intent = id-IsFine intent _
  query-IsFine QueryTarget.blob_set intent = set-IsFine intent _ _
  query-IsFine QueryTarget.none intent = tt

  save-IsFine :
      (intent : UrlIntent) (o : Option Saved)
      → sent ≡ true
      → IsFine h auth sent (save_upload h auth intent o)
  unfolding save_upload
  save-IsFine intent none y = tt
  save-IsFine intent (some stored) y = (y, refl)

  sized-IsFine :
      (intent : UrlIntent) (stored : Upload) (o : Option ℕ)
      → sent ≡ true
      → IsFine h auth sent (sized_upload h auth intent stored o)
  unfolding sized_upload
  sized-IsFine intent stored none k = tt
  sized-IsFine intent stored (some size) k = elim (Bool-cases (size == 0)) [
    | inl y ↦ rw y tt
    | inr n ↦ rw n (save-IsFine intent stored.saved k)
  ]

  upload-IsFine :
      (intent : UrlIntent) (stored : Upload)
      → sent ≡ true
      → IsFine h auth sent (on_upload h auth intent stored)
  unfolding on_upload
  upload-IsFine intent stored k = elim (Bool-cases (bytes_eq auth.user intent.user)) [
    | inl y ↦ rw y (sized-IsFine intent stored stored.size k)
    | inr n ↦ rw n tt
  ]

  page-IsFine :
      (a : Action) (req : Request) (intent : UrlIntent)
      → IsFine h auth sent (get_page h auth a req intent)
  unfolding get_page
  page-IsFine Action.home req intent = elim (Bool-cases (valid auth)) [
    | inl y ↦ rw y refl
    | inr n ↦ rw n tt
  ]
  page-IsFine Action.query req intent = query-IsFine intent.query_target intent
  page-IsFine Action.lib req intent = tt
  page-IsFine Action.logout req intent = tt
  page-IsFine Action.login req intent = tt
  page-IsFine Action.view req intent = tt
  page-IsFine Action.upload req intent = tt
  page-IsFine Action.api req intent = tt
  page-IsFine Action.none req intent = tt

  empty-IsFine :
      (m : Method) (req : Request) (intent : UrlIntent)
      → IsFine h auth sent (on_empty h auth m req intent)
  unfolding on_empty
  empty-IsFine get_ req intent = page-IsFine intent.action req intent
  empty-IsFine post_ req intent = tt
  empty-IsFine delete_ req intent = tt
  empty-IsFine put_ req intent = tt
  empty-IsFine head_ req intent = tt
  empty-IsFine other_ req intent = tt

  file-IsFine :
      (a : Action) (req : Request) (intent : UrlIntent) (stored : Upload)
      → sent ≡ true
      → IsFine h auth sent (on_file h auth a req intent stored)
  unfolding on_file
  file-IsFine Action.upload req intent stored k = upload-IsFine intent stored k
  file-IsFine Action.home req intent stored k = tt
  file-IsFine Action.query req intent stored k = tt
  file-IsFine Action.lib req intent stored k = tt
  file-IsFine Action.logout req intent stored k = tt
  file-IsFine Action.login req intent stored k = tt
  file-IsFine Action.view req intent stored k = tt
  file-IsFine Action.api req intent stored k = tt
  file-IsFine Action.none req intent stored k = tt

  login-IsFine :
      (m : Method) (req : Request) (body : Body)
      → IsFine h auth sent (on_login_body h auth m req body)
  unfolding on_login_body on_login
  login-IsFine post_ req (string_body text) =
      elim (Bool-cases (bytes_eq req.content_type form_type)) [ inl y ↦ rw y tt | inr n ↦ rw n tt ]
  login-IsFine post_ req empty_body = tt
  login-IsFine post_ req (upload_body stored) = tt
  login-IsFine get_ req body = tt
  login-IsFine delete_ req body = tt
  login-IsFine put_ req body = tt
  login-IsFine head_ req body = tt
  login-IsFine other_ req body = tt

  body-IsFine :
      (body : Body) (req : Request) (intent : UrlIntent)
      → (is_file body ≡ false) ⊎ (sent ≡ true)
      → IsFine h auth sent (on_body h auth body req intent)
  unfolding on_body
  body-IsFine empty_body req intent k = empty-IsFine req.method req intent
  body-IsFine (string_body text) req intent k = tt
  body-IsFine (upload_body stored) req intent k =
      file-IsFine intent.action req intent stored (ground arith)

  action-IsFine :
      (a : Action) (req : Request) (body : Body) (intent : UrlIntent)
      → (is_file body ≡ false) ⊎ (sent ≡ true)
      → IsFine h auth sent (on_action h auth a req body intent)
  unfolding on_action
  action-IsFine Action.login req body intent k = login-IsFine req.method req body
  action-IsFine Action.view req body intent k =
      view-IsFine h auth sent req.method (blob_request req body intent)
  action-IsFine Action.api req body intent k =
      api-IsFine h auth sent req.method (blob_request req body intent)
  action-IsFine Action.upload req body intent k = body-IsFine body req intent k
  action-IsFine Action.home req body intent k = body-IsFine body req intent k
  action-IsFine Action.query req body intent k = body-IsFine body req intent k
  action-IsFine Action.lib req body intent k = body-IsFine body req intent k
  action-IsFine Action.logout req body intent k = body-IsFine body req intent k
  action-IsFine Action.none req body intent k = body-IsFine body req intent k

pub request-IsFine :
    (h : HexCodec) (auth : UserId) (req : Request) (body : Body)
    → IsOwn (is_file body) auth (on_request_body h auth req body)
unfolding on_request_body
request-IsFine h auth req body =
    let intent = parse req.target in
    action-IsFine h auth (is_file body) intent.action req body intent
      (elim (Bool-cases (is_file body)) [ inl y ↦ inr y | inr n ↦ inl n ])
