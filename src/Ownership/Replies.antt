-- ===== src/Ownership/Replies.antt =====
-- What the callbacks of src/server/hrb/Ownership.ipp make of a reply, and `from_reply` of
-- src/server/hrb/Ownership.cc. The metadata of an album is left out, as in Collection.antt.
use hearty_rabbit.Prelude.{
  ◌≡◌, refl, not, ◌&&◌, List, [], ◌∷◌, Option, none, some, if◌then◌else◌, Bytes, is_empty, ◌==◌,
  ◌>>=◌,
}
use hearty_rabbit.Redis.Reply.{
  Reply, string, nil, array, Replies, end, ◌⨾◌, Error, is_error, as_string, items, elements,
  array_size, as_array, as_array_checked,
}
use hearty_rabbit.UserId.{UserId}
use hearty_rabbit.ObjectId.{from_raw}
use hearty_rabbit.Permission.{allow}
use hearty_rabbit.BlobInode.{Json, BlobInode}
use hearty_rabbit.BlobInode.Record.{permission, fields}
use hearty_rabbit.Collection.{Collection, Blob, add_blob}
use hearty_rabbit.RedisKeys.{collection, collection_list, blob_inode}
use hearty_rabbit.Ownership.Store.{Db}

abbrev pub found : Option Bytes → Reply
found none = nil
found (some v) = string v

abbrev pub to_replies : List Reply → Replies
to_replies [] = end
to_replies (r ∷ rs) = r ⨾ to_replies rs

pub elements-to_replies : (rs : List Reply) → elements (to_replies rs) ≡ rs
elements-to_replies [] = refl
elements-to_replies (r ∷ rs) = rw (elements-to_replies rs)

-- `HGET` in a Lua table: a missing field is `false` there, which ends a reply as nil.
module _ {ℓ} {S : Type ℓ} (db : Db S) (user : Bytes) where
  -- The triples of `scan_collection_command`: blob, inode and filename.
  unfoldable pub scan_rows : S → Bytes → List Bytes → List Reply
  scan_rows s coll [] = []
  scan_rows s coll (blob ∷ blobs) =
      string blob
      ∷ found (db.hget s (blob_inode user) blob)
      ∷ found (db.hget s (collection user coll) blob)
      ∷ scan_rows s coll blobs

  -- `HGETALL` gives each field of the hash with its value.
  unfoldable pub scan_script : S → Bytes → Reply
  unfolding scan_rows
  scan_script s coll = array (
      array (to_replies (scan_rows s coll (db.hkeys s (collection user coll))))
      ⨾ found (db.hget s (collection_list user) coll)
      ⨾ end)

-- What `get_blob` of a user's album completes with: an inode, a filename and an error.
unfoldable pub on_get_blob : Reply → Error → Bytes × Bytes × Error
on_get_blob reply ec =
    if not (is_error ec) && array_size reply == 2
    then (as_string (as_array reply 0), as_string (as_array reply 1), ec)
    else ([], [], Error.object_not_exist)

-- What `get_blob` for a requester completes with.
unfoldable pub on_get_inode : Bytes → UserId → Reply → Error → Bytes × Error
on_get_inode user requester (string raw) ec =
    if is_error ec
    then ([], Error.object_not_exist)
    else if allow (permission raw) requester user
    then (raw, ec)
    else ([], Error.object_not_exist)
on_get_inode user requester reply ec = ([], Error.object_not_exist)

module _ {ι} {V : Type ι} (j : Json V) (user : Bytes) where
  -- The filename in the album takes the place of the one that the blob came with.
  unfoldable pub rename_to : Bytes → BlobInode → BlobInode
  rename_to filename inode =
      if is_empty filename then inode else record inode { filename = filename }

  unfoldable pub add_fields :
      Bytes → Bytes → Option BlobInode → Collection BlobInode → Collection BlobInode
  unfolding rename_to
  add_fields id filename none result = result
  add_fields id filename (some inode) result = add_blob id (rename_to filename inode) result

  unfoldable pub add_allowed :
      UserId → Option Bytes → Bytes → Bytes → Collection BlobInode → Option (Collection BlobInode)
  unfolding add_fields
  add_allowed requester none raw filename result = some result
  add_allowed requester (some id) raw filename result =
      if allow (permission raw) requester user
      then (do inode ← fields j raw; some (add_fields id filename inode result))
      else some result

  -- One round of the loop of `from_reply`; `none` is the exception of `fields`.
  unfoldable pub add_row :
      UserId → Bytes → Bytes → Bytes → Collection BlobInode → Option (Collection BlobInode)
  unfolding add_allowed
  add_row requester blob raw filename result =
      if is_empty raw
      then some result
      else add_allowed requester (from_raw blob) raw filename result

  unfoldable pub from_rows :
      UserId → List Reply → Collection BlobInode → Option (Collection BlobInode)
  unfolding add_row
  from_rows requester (blob ∷ perm ∷ filename ∷ rows) result = do
    next ← add_row requester (as_string blob) (as_string perm) (as_string filename) result
    from_rows requester rows next
  from_rows requester _ result = some result

  unfoldable pub from_reply : Reply → Bytes → UserId → Option (Collection BlobInode)
  unfolding from_rows
  from_reply reply coll requester =
      from_rows requester (items reply) (record { name = coll; owner = user; blobs = [] })

  -- What `get_collection` completes with.
  unfoldable pub on_get_collection :
      Reply → Error → Bytes → UserId → Option (Collection BlobInode) × Error
  unfolding from_reply
  on_get_collection reply ec coll requester =
      if array_size reply == 2
      then (from_reply (as_array reply 0) coll requester, ec)
      else (some (record { name = []; owner = []; blobs = [] }), Error.command_error)

  unfoldable pub add_found :
      Bytes → Bytes → Bytes → Option BlobInode → List (Blob BlobInode) → List (Blob BlobInode)
  add_found owner coll id none blobs = blobs
  add_found owner coll id (some inode) blobs =
      record { owner = owner; collection = coll; id = id; info = inode } ∷ blobs

  -- The blobs that `query_blob` completes with.
  unfoldable pub on_query_blob : Bytes → List (Bytes × Reply) → Option (List (Blob BlobInode))
  unfolding add_found
  on_query_blob blob [] = some []
  on_query_blob blob ((coll, raw) ∷ rows) = do
    inode ← fields j (as_string raw)
    blobs ← on_query_blob blob rows
    some (add_found user coll blob inode blobs)

  unfoldable pub add_public :
      Option Bytes
      → Error
      → Bytes
      → Bytes
      → Bytes
      → List (Blob BlobInode)
      → Option (List (Blob BlobInode))
  unfolding add_found
  add_public none err owner coll raw blobs = some blobs
  add_public (some id) err owner coll raw blobs =
      if is_error err
      then some blobs
      else (do inode ← fields j raw; some (add_found owner coll id inode blobs))

  -- The blobs that `list_public_blobs` completes with.
  unfoldable pub on_list_public_blobs : List Reply → Option (List (Blob BlobInode))
  unfolding add_public
  on_list_public_blobs [] = some []
  on_list_public_blobs (row ∷ rows) =
      let (owner, e0) = as_array_checked row 0 Error.ok in
      let (blob, e1) = as_array_checked row 1 e0 in
      let (coll, e2) = as_array_checked row 2 e1 in
      let (entry, e3) = as_array_checked row 3 e2 in
      (do
        blobs ← on_list_public_blobs rows
        add_public (from_raw (as_string blob)) e3 (as_string owner) (as_string coll)
            (as_string entry) blobs)
