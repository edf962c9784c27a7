-- ===== src/Handler/Body.antt =====
-- `on_request_body` of src/server/hrb/SessionHandler.ipp and what it calls, with SessionHandler.cc.
-- Where the code is told apart by the type of the request, the model is by the body.
use hearty_rabbit.Prelude.{
  ℕ, true, false, not, ◌&&◌, [], ◌∷◌, Option, none, some, if◌then◌else◌, Bytes, codes, bytes_eq,
  is_empty, is_some, ◌==◌,
}
use hearty_rabbit.Escape.Hex.{HexCodec, to_hex, to_quoted_hex}
use hearty_rabbit.StringFields
use hearty_rabbit.StringFields.{urlform}
use hearty_rabbit.ObjectId.{from_hex}
use hearty_rabbit.Permission.{from_description, private}
use hearty_rabbit.UserId.{UserId, valid}
use hearty_rabbit.Url.Types.{Action, QueryTarget, UrlIntent}
use hearty_rabbit.Url.Parse.{parse}
use hearty_rabbit.Url.Write.{str, of_name}
use hearty_rabbit.Ownership.Commands.{Call}
use hearty_rabbit.Handler.Request.{
  Method, get_, post_, delete_, Body, empty_body, string_body, upload_body, Saved, Upload, Request,
  BlobRequest, Answer, respond, bad_request, not_found, not_modified, file, log_in, log_out,
  list_albums, list_publics, show_album, json_album, find_duplicates, read_blob, read_inode, change,
  share, list_guests, upload, undefined, form_type, blob_request, request_by_owner, blob,
}
use hearty_rabbit.Handler.Header.{form_value}

-- A form field that may be left out.
abbrev pub form_option : Bytes → Bytes → Option Bytes
form_option text name = elim (StringFields.find_optional urlform text (name ∷ [])) [
  | [] ↦ none
  | v ∷ vs ↦ v
]

module _ (h : HexCodec) (auth : UserId) where
  unfoldable pub on_login : Request → Bytes → Answer
  on_login req text =
      if bytes_eq req.content_type form_type
      then log_in (form_value text (codes "username")) (form_value text (codes "password"))
      else respond 400

  unfoldable pub unlink_of : BlobRequest → Option Bytes → Answer
  unlink_of breq none = undefined
  unlink_of breq (some id) = change breq.url.user (Call.unlink_blob breq.url.coll id)

  -- Without its assertion.
  unfoldable pub unlink : BlobRequest → Answer
  unfolding unlink_of request_by_owner blob
  unlink breq = if request_by_owner breq auth then unlink_of breq (blob h breq) else respond 403

  unfoldable pub post_form : BlobRequest → Bytes → Bytes → Bytes → Answer
  post_form breq id perm move =
      if is_empty perm && is_empty move
      then respond 400
      else if not (is_empty perm)
      then change breq.url.user (Call.set_permission id (from_description perm))
      else change breq.url.user (Call.move_blob breq.url.coll move id)

  unfoldable pub post_blob : BlobRequest → Bytes → Answer
  unfolding post_form request_by_owner
  post_blob breq id =
      if request_by_owner breq auth
      then post_form breq id (form_value breq.body (codes "perm"))
          (form_value breq.body (codes "move"))
      else respond 403

  unfoldable pub share_form : BlobRequest → Bytes → Answer
  share_form breq share_arg =
      if bytes_eq share_arg (codes "create")
      then share breq.url.user breq.url.coll
      else if bytes_eq share_arg (codes "list")
      then list_guests breq.url.user breq.url.coll
      else respond 400

  unfoldable pub cover_form : BlobRequest → Option Bytes → Answer
  unfolding share_form
  cover_form breq none = share_form breq (form_value breq.body (codes "share"))
  cover_form breq (some id) = change breq.url.user (Call.set_cover breq.url.coll id)

  unfoldable pub post_view : BlobRequest → Answer
  unfolding cover_form request_by_owner
  post_view breq =
      if request_by_owner breq auth
      then cover_form breq (from_hex h (form_value breq.body (codes "cover")))
      else respond 403

  -- `read_blob` has the callback `on_blob` of Handler/Blob.antt, and `json_album` that of
  -- Handler/Repair.antt.
  unfoldable pub get_blob : BlobRequest → Bytes → Answer
  get_blob breq id =
      if bytes_eq breq.etag (to_quoted_hex h id b'"')
      then not_modified id
      else read_blob breq.url.user breq.url.coll id breq

  unfoldable pub get_api : BlobRequest → Option Bytes → Answer
  unfolding get_blob
  get_api breq none = json_album auth.user breq.url.user breq.url.coll
  get_api breq (some id) = get_blob breq id

  unfoldable pub post_api : BlobRequest → Option Bytes → Answer
  unfolding post_blob post_view
  post_api breq none = post_view breq
  post_api breq (some id) = post_blob breq id

  unfoldable pub on_request_api : Method → BlobRequest → Answer
  unfolding unlink get_api post_api blob
  on_request_api delete_ breq = unlink breq
  on_request_api get_ breq = get_api breq (blob h breq)
  on_request_api post_ breq = post_api breq (blob h breq)
  on_request_api method breq = respond 400

  unfoldable pub on_request_view : Method → BlobRequest → Answer
  unfolding blob
  on_request_view get_ breq = show_album breq.url.user breq.url.coll (blob h breq) true
  on_request_view method breq = respond 400

  unfoldable pub scan_collection : UrlIntent → Option Bytes → Answer
  scan_collection intent none = bad_request (codes "invalid user in query")
  scan_collection intent (some user) =
      if bytes_eq auth.user user
      then list_albums user (not (is_some (form_option intent.option (codes "json"))))
      else respond 403

  unfoldable pub query_id : UrlIntent → Option Bytes → Answer
  query_id intent none = bad_request (codes "invalid blob ID")
  query_id intent (some id) =
      let owner = form_value intent.option (codes "owner") in
      read_inode (if is_empty owner then auth.user else owner) id
        (form_value intent.option (codes "rendition"))

  unfoldable pub query_set : UrlIntent → Option Bytes → Option Bytes → Answer
  query_set intent (some user) dup =
      list_publics (is_some (form_option intent.option (codes "json"))) user
  query_set intent none (some coll) =
      find_duplicates auth.user coll (not (is_some (form_option intent.option (codes "json"))))
  query_set intent none none = bad_request (codes "invalid query")

  unfoldable pub query_of : QueryTarget → UrlIntent → Answer
  unfolding scan_collection query_id query_set from_hex
  query_of QueryTarget.collection intent =
      scan_collection intent (form_option intent.option (codes "user"))
  query_of QueryTarget.blob intent =
      query_id intent (from_hex h (form_value intent.option (codes "id")))
  query_of QueryTarget.blob_set intent =
      query_set intent (form_option intent.option (codes "public"))
        (form_option intent.option (codes "detect_dup"))
  query_of QueryTarget.none intent = bad_request (codes "unsupported query target")

  -- Where an uploaded blob is found, as the response says.
  unfoldable pub upload_location : UrlIntent → Bytes → Bytes
  unfolding str of_name to_hex
  upload_location intent id = str (of_name Action.api auth.user intent.coll (to_hex h id) [])

  unfoldable pub save_upload : UrlIntent → Option Saved → Answer
  save_upload intent none = respond 500
  save_upload intent (some stored) =
      upload auth.user
        (Call.link_blob intent.coll stored.id (record {
          perm = private;
          filename = intent.filename;
          mime = stored.mime;
          timestamp = stored.datetime;
        }))
        stored.phash

  unfoldable pub sized_upload : UrlIntent → Upload → Option ℕ → Answer
  unfolding save_upload
  sized_upload intent stored none = respond 500
  sized_upload intent stored (some size) =
      if size == 0 then respond 400 else save_upload intent stored.saved

  unfoldable pub on_upload : UrlIntent → Upload → Answer
  unfolding sized_upload
  on_upload intent stored =
      if bytes_eq auth.user intent.user then sized_upload intent stored stored.size else respond 403

  -- The requests without a body, of which only those with `GET` are served.
  unfoldable pub get_page : Action → Request → UrlIntent → Answer
  unfolding query_of valid
  get_page Action.lib req intent = file intent req.if_none_match
  get_page Action.home req intent =
      if valid auth then list_albums auth.user true else list_publics false []
  get_page Action.query req intent = query_of intent.query_target intent
  get_page Action.logout req intent = log_out
  get_page action req intent = not_found req.target

  unfoldable pub on_empty : Method → Request → UrlIntent → Answer
  unfolding get_page
  on_empty get_ req intent = get_page intent.action req intent
  on_empty method req intent = bad_request (codes "unsupported HTTP method")

  unfoldable pub on_file : Action → Request → UrlIntent → Upload → Answer
  unfolding on_upload
  on_file Action.upload req intent stored = on_upload intent stored
  on_file action req intent stored = not_found req.target

  unfoldable pub on_body : Body → Request → UrlIntent → Answer
  unfolding on_empty on_file
  on_body empty_body req intent = on_empty req.method req intent
  on_body (string_body text) req intent = not_found req.target
  on_body (upload_body stored) req intent = on_file intent.action req intent stored

  unfoldable pub on_login_body : Method → Request → Body → Answer
  unfolding on_login
  on_login_body post_ req (string_body text) = on_login req text
  on_login_body method req body = respond 400

  unfoldable pub on_action : Action → Request → Body → UrlIntent → Answer
  unfolding on_body on_login_body on_request_api on_request_view blob_request
  on_action Action.login req body intent = on_login_body req.method req body
  on_action Action.view req body intent = on_request_view req.method (blob_request req body intent)
  on_action Action.api req body intent = on_request_api req.method (blob_request req body intent)
  on_action action req body intent = on_body body req intent

  unfoldable pub on_request_body : Request → Body → Answer
  unfolding on_action parse
  on_request_body req body =
      let intent = parse req.target in on_action intent.action req body intent
