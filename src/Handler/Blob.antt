-- ===== src/Handler/Blob.antt =====
-- src/server/hrb/SessionHandler.ipp and SessionHandler.cc: the answers that wait for redis.
use hearty_rabbit.Prelude.{
  ℕ, ◌≡◌, refl, Bool, true, false, Option, none, some, bytes_eq, not, [], if◌then◌else◌, Bytes,
  codes, is_some, inl, inr, Bool-cases,
}
use hearty_rabbit.Redis.Reply.{
  Reply, array, nil, ◌⨾◌, end, Error, is_error, as_string, as_array, array_size, items,
}
use hearty_rabbit.RedisKeys.{collection, blob_inode}
use hearty_rabbit.Permission.{allow}
use hearty_rabbit.UserId.{UserId}
use hearty_rabbit.BlobInode.Record.{permission}
use hearty_rabbit.Ownership.Store.{Db, value_or}
use hearty_rabbit.Ownership.Replies.{found, on_get_blob}
use hearty_rabbit.Escape.Hex.{HexCodec, to_quoted_hex}
use hearty_rabbit.Handler.Request.{
  BlobRequest, Answer, respond, meta, content, request_by_owner, read_blob, not_modified,
}
use hearty_rabbit.Handler.Header.{form_value}
use hearty_rabbit.Handler.Body.{form_option, get_blob}

-- The script of `Ownership::get_blob`.
unfoldable pub get_blob_script {ℓ} : {S : Type ℓ} → Db S → Bytes → S → Bytes → Bytes → Reply
get_blob_script db user s coll blob =
    if is_some (db.hget s (collection user coll) blob)
    then array (
        found (db.hget s (blob_inode user) blob)
        ⨾ found (db.hget s (collection user coll) blob)
        ⨾ end)
    else nil

pub no_error : (e : Error) → is_error e ≡ false → e ≡ Error.ok
no_error Error.ok h = refl
no_error Error.io h = cc
no_error Error.eof h = cc
no_error Error.protocol h = cc
no_error Error.oom h = cc
no_error Error.other h = cc
no_error Error.command_error h = cc
no_error Error.field_not_found h = cc
no_error Error.transaction_aborted h = cc
no_error Error.login_incorrect h = cc
no_error Error.object_not_exist h = cc
no_error Error.unknown_error h = cc
no_error (Error.system n) h = cc

module _ (auth : UserId) (breq : BlobRequest) (id : Bytes) where
  -- A blob that may be seen: what is known of it, or a rendition of it.
  unfoldable pub send_blob : Bytes → Answer
  send_blob filename =
      if is_some (form_option breq.url.option (codes "json"))
      then meta id
      else content id (form_value breq.url.option (codes "rendition")) filename

  -- The callback of `get_blob`, for an inode, a filename and an error.
  unfoldable pub on_blob : Bytes × Bytes × Error → Answer
  unfolding send_blob request_by_owner
  on_blob (raw, filename, Error.object_not_exist) =
      respond (if request_by_owner breq auth then 404 else 403)
  on_blob (raw, filename, ec) =
      if is_error ec
      then respond 500
      else if not (allow (permission raw) auth breq.url.user)
      then respond 403
      else send_blob filename

  judge :
      (perm : ℕ) (name : Bytes)
      → (if not (allow perm auth breq.url.user) then respond 403 else send_blob name)
        ≡ (if allow perm auth breq.url.user then send_blob name else respond 403)
  judge perm name = elim (Bool-cases (allow perm auth breq.url.user)) [
    | inl y ↦ rw y
    | inr n ↦ rw n
  ]

  -- The answer, by what redis has and whether it could be asked.
  abbrev pub blob_answer : Bool → Option Bytes → Option Bytes → Answer
  blob_answer true filename raw = respond (if request_by_owner breq auth then 404 else 403)
  blob_answer false none raw = respond (if request_by_owner breq auth then 404 else 403)
  blob_answer false (some filename) raw =
      if allow (permission (value_or raw [])) auth breq.url.user
      then (if is_some (form_option breq.url.option (codes "json"))
          then meta id
          else content id (form_value breq.url.option (codes "rendition")) filename)
      else respond 403

  blob_found :
      (filename raw : Option Bytes) (reply : Reply)
      → reply ≡ (if is_some filename then array (found raw ⨾ found filename ⨾ end) else nil)
      → on_blob (on_get_blob reply Error.ok) ≡ blob_answer false filename raw
  unfolding on_blob on_get_blob array_size as_array items as_string send_blob
  blob_found none raw reply e = rw e refl
  blob_found (some filename) none reply e = rw e (judge (permission []) filename)
  blob_found (some filename) (some raw) reply e = rw e (judge (permission raw) filename)

  blob_read {ℓ} :
      {S : Type ℓ} (db : Db S) (s : S) (ec : Error)
      → on_blob (on_get_blob (get_blob_script db breq.url.user s breq.url.coll id) ec)
        ≡ blob_answer
            (is_error ec)
            (db.hget s (collection breq.url.user breq.url.coll) id)
            (db.hget s (blob_inode breq.url.user) id)
  unfolding on_blob on_get_blob get_blob_script
  blob_read db s ec = elim (Bool-cases (is_error ec)) [
    | inl y ↦ rw y refl
    | inr n ↦
        let fine = no_error ec n in
        rw fine (
          blob_found (db.hget s (collection breq.url.user breq.url.coll) id)
            (db.hget s (blob_inode breq.url.user) id) _ refl)
  ]

module _ {ℓ} {S : Type ℓ} (h : HexCodec) (auth : UserId) (db : Db S) (s : S) (ec : Error) where
  -- What comes of an answer that asks redis for a blob, when redis replies or reports an error.
  unfoldable pub after_redis : Answer → Answer
  unfolding on_blob on_get_blob get_blob_script
  after_redis (read_blob user coll id breq) =
      on_blob auth breq id (on_get_blob (get_blob_script db user s coll id) ec)
  after_redis answer = answer

  -- All that `GET` of a blob in an album answers. A browser that has the blob is told so, whoever asks. If
  -- the album has the blob, it is sent to those who may see it by its permission, as what is known of
  -- it or in the rendition asked for, and forbidden to others. If the album does not have it, or
  -- redis reports any error, it is not found for the owner, and forbidden to anybody else.
  pub get_blob-answers :
      (breq : BlobRequest) (id : Bytes)
      → after_redis (get_blob h auth breq id) ≡ (
          if bytes_eq breq.etag (to_quoted_hex h id b'"')
          then not_modified id
          else blob_answer auth breq id
              (is_error ec)
              (db.hget s (collection breq.url.user breq.url.coll) id)
              (db.hget s (blob_inode breq.url.user) id))
  unfolding after_redis get_blob
  get_blob-answers breq id = elim (Bool-cases (bytes_eq breq.etag (to_quoted_hex h id b'"'))) [
    | inl y ↦ rw (get_blob, y) refl
    | inr n ↦ rw (get_blob, n) (blob_read auth breq id db s ec)
  ]

-- The responses after a change: `unlink`, `post_blob`, `post_view` and `on_upload`.
unfoldable pub unlink_status : Error → ℕ
unlink_status Error.object_not_exist = 400
unlink_status ec = if is_error ec then 500 else 204

unfoldable pub change_status : Error → ℕ
change_status ec = if is_error ec then 500 else 204

unfoldable pub cover_status : Bool → Error → ℕ
cover_status ok ec = if is_error ec then 500 else if ok then 204 else 400

unfoldable pub upload_status : Error → ℕ
upload_status ec = if is_error ec then 500 else 201

unfoldable pub login_status : Error → ℕ
login_status Error.login_incorrect = 403
login_status ec = if is_error ec then 500 else 204
