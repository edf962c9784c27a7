-- ===== src/Handler/Owner.antt =====
-- src/server/hrb/SessionHandler.cc and SessionHandler.ipp: who may change what a user has.
pub mod Pages
use hearty_rabbit.Prelude.{
  ℕ, ◌≡◌, ◌⊎◌, inl, inr, refl, Bool, true, false, Option, none, some, Bytes, codes, bytes_eq,
  bytes_eq_sound, is_empty, ◌==◌, Bool-cases, Option-cases, arith,
}
use hearty_rabbit.Escape.Hex.{HexCodec, to_quoted_hex}
use hearty_rabbit.ObjectId.{from_hex}
use hearty_rabbit.UserId.{UserId, valid}
use hearty_rabbit.Url.Types.{Action, QueryTarget, UrlIntent}
use hearty_rabbit.Url.Parse.{parse}
use hearty_rabbit.Handler.Request.{
  Method, get_, post_, delete_, put_, head_, other_, Body, empty_body, string_body, upload_body,
  Saved, Upload, Request, BlobRequest, Answer, list_albums, json_album, find_duplicates, change,
  share, list_guests, upload, form_type, blob_request, request_by_owner, blob,
}
use hearty_rabbit.Handler.Body.{
  on_login, unlink_of, unlink, post_form, post_blob, share_form, cover_form, post_view, get_blob,
  get_api, post_api, on_request_api, on_request_view, scan_collection, query_id, query_set,
  query_of, save_upload, sized_upload, on_upload, get_page, on_empty, on_file, on_body,
  on_login_body, on_action, on_request_body,
}
use hearty_rabbit.Handler.Header.{form_value}

-- The user whose albums, inodes or shares an answer changes or gives out.
abbrev pub acts_for : Answer → Option Bytes
acts_for (change owner c) = some owner
acts_for (share owner coll) = some owner
acts_for (list_guests owner coll) = some owner
acts_for (upload owner c phash) = some owner
acts_for (json_album user owner coll) = some user
acts_for _ = none

-- What only the user themself may ask for: a guest session will not do for a change, and an upload
-- takes a file that was sent.
abbrev pub IsOwn : Bool → UserId → Answer → Type 0
IsOwn sent a (change owner c) = (a.guest ≡ false) × (a.user ≡ owner)
IsOwn sent a (share owner coll) = (a.guest ≡ false) × (a.user ≡ owner)
IsOwn sent a (list_guests owner coll) = (a.guest ≡ false) × (a.user ≡ owner)
IsOwn sent a (upload owner c phash) = (sent ≡ true) × (a.user ≡ owner)
IsOwn sent a (list_albums owner html) = a.user ≡ owner
IsOwn sent a (json_album user owner coll) = a.user ≡ user
IsOwn sent a (find_duplicates owner coll html) = a.user ≡ owner
IsOwn sent a _ = Unit

abbrev pub is_file : Body → Bool
is_file (upload_body stored) = true
is_file _ = false

module _ (h : HexCodec) (auth : UserId) (sent : Bool) where
  abbrev pub IsFine : Answer → Type 0
  IsFine a = IsOwn sent auth a

  owner_of :
      (breq : BlobRequest)
      → request_by_owner breq auth ≡ true
      → (auth.guest ≡ false) × (auth.user ≡ breq.url.user)
  unfolding request_by_owner
  owner_of breq y = (ground arith, bytes_eq_sound auth.user breq.url.user (ground arith))

  unlink-IsFine : (breq : BlobRequest) → IsFine (unlink h auth breq)
  unfolding unlink unlink_of
  unlink-IsFine breq = elim (Bool-cases (request_by_owner breq auth)) [
    | inr n ↦ rw n tt
    | inl y ↦ rw y (elim (Option-cases (blob h breq)) [
      | inl n ↦ rw n tt
      | inr (id, e) ↦ rw e (owner_of breq y)
    ])
  ]

  form-IsFine :
      (breq : BlobRequest) (id perm move : Bytes)
      → request_by_owner breq auth ≡ true
      → IsFine (post_form h auth breq id perm move)
  unfolding post_form
  form-IsFine breq id perm move y = elim (Bool-cases (is_empty perm)) [
    | inr n ↦ rw n (owner_of breq y)
    | inl p ↦ elim (Bool-cases (is_empty move)) [
      | inl m ↦ rw (p, m) tt
      | inr n ↦ rw (p, n) (owner_of breq y)
    ]
  ]

  post_blob-IsFine : (breq : BlobRequest) (id : Bytes) → IsFine (post_blob h auth breq id)
  unfolding post_blob
  post_blob-IsFine breq id = elim (Bool-cases (request_by_owner breq auth)) [
    | inr n ↦ rw n tt
    | inl y ↦ rw y (
        form-IsFine breq id (form_value breq.body (codes "perm"))
          (form_value breq.body (codes "move")) y)
  ]

  share-IsFine :
      (breq : BlobRequest) (text : Bytes)
      → request_by_owner breq auth ≡ true
      → IsFine (share_form h auth breq text)
  unfolding share_form
  share-IsFine breq text y = elim (Bool-cases (bytes_eq text (codes "create"))) [
    | inl c ↦ rw c (owner_of breq y)
    | inr n ↦ rw n (elim (Bool-cases (bytes_eq text (codes "list"))) [
      | inl l ↦ rw l (owner_of breq y)
      | inr k ↦ rw k tt
    ])
  ]

  cover-IsFine :
      (breq : BlobRequest) (o : Option Bytes)
      → request_by_owner breq auth ≡ true
      → IsFine (cover_form h auth breq o)
  unfolding cover_form
  cover-IsFine breq none y = share-IsFine breq (form_value breq.body (codes "share")) y
  cover-IsFine breq (some id) y = owner_of breq y

  post_view-IsFine : (breq : BlobRequest) → IsFine (post_view h auth breq)
  unfolding post_view
  post_view-IsFine breq = elim (Bool-cases (request_by_owner breq auth)) [
    | inr n ↦ rw n tt
    | inl y ↦ rw y (cover-IsFine breq (from_hex h (form_value breq.body (codes "cover"))) y)
  ]

  get_blob-IsFine : (breq : BlobRequest) (id : Bytes) → IsFine (get_blob h auth breq id)
  unfolding get_blob
  get_blob-IsFine breq id = elim (Bool-cases (bytes_eq breq.etag (to_quoted_hex h id b'"'))) [
    | inl y ↦ rw y tt
    | inr n ↦ rw n tt
  ]

  get_api-IsFine : (breq : BlobRequest) (o : Option Bytes) → IsFine (get_api h auth breq o)
  unfolding get_api
  get_api-IsFine breq none = refl
  get_api-IsFine breq (some id) = get_blob-IsFine breq id

  post_api-IsFine : (breq : BlobRequest) (o : Option Bytes) → IsFine (post_api h auth breq o)
  unfolding post_api
  post_api-IsFine breq none = post_view-IsFine breq
  post_api-IsFine breq (some id) = post_blob-IsFine breq id

  pub api-IsFine : (m : Method) (breq : BlobRequest) → IsFine (on_request_api h auth m breq)
  unfolding on_request_api
  api-IsFine delete_ breq = unlink-IsFine breq
  api-IsFine get_ breq = get_api-IsFine breq (blob h breq)
  api-IsFine post_ breq = post_api-IsFine breq (blob h breq)
  api-IsFine put_ breq = tt
  api-IsFine head_ breq = tt
  api-IsFine other_ breq = tt

  pub view-IsFine : (m : Method) (breq : BlobRequest) → IsFine (on_request_view h auth m breq)
  unfolding on_request_view
  view-IsFine get_ breq = tt
  view-IsFine post_ breq = tt
  view-IsFine delete_ breq = tt
  view-IsFine put_ breq = tt
  view-IsFine head_ breq = tt
  view-IsFine other_ breq = tt
