-- ===== src/Ownership/Query.antt =====
-- src/server/hrb/Ownership.ipp, `query_blob` and `list_public_blobs`: the scripts that they run, here
-- and in src/server/hrb/Ownership.cc, and where a blob is found.
use hearty_rabbit.Prelude.{
  ◌≡◌, ◌∙◌, refl, ap, sym, List, [], ◌∷◌, ◌++◌, map, Option, none, some, Bytes, codes, is_some, has,
}
use hearty_rabbit.Redis.Reply.{Reply, string, array, end, ◌⨾◌, as_string, items, pairs, elements}
use hearty_rabbit.BlobInode.{Json, BlobInode}
use hearty_rabbit.BlobInode.Record.{fields}
use hearty_rabbit.Collection.{Blob}
use hearty_rabbit.RedisKeys.{blob_refs, blob_inode, collection, public_blobs}
use hearty_rabbit.Ownership.Store.{Db}
use hearty_rabbit.Ownership.Scripts.{Lua}
use hearty_rabbit.Ownership.Invariant.{IsConsistent}
use hearty_rabbit.Ownership.Replies.{found, to_replies, add_found, on_query_blob}

module _ {ℓ} {S : Type ℓ} (db : Db S) where
  unfoldable pub query_rows : S → Bytes → Bytes → List Bytes → List Reply
  query_rows s user blob [] = []
  query_rows s user blob (coll ∷ colls) =
      string coll ∷ found (db.hget s (blob_inode user) blob) ∷ query_rows s user blob colls

  unfoldable pub query_script : S → Bytes → Bytes → Reply
  unfolding query_rows
  query_script s user blob =
      array (to_replies (query_rows s user blob (db.smembers s (blob_refs user blob))))

  -- `SRANDMEMBER` gives any member of a set, or nothing.
  module _ {κ} {J : Type κ} (l : Lua J) (srandmember : S → Bytes → Option Bytes) where
    unfoldable pub public_row : S → Option (Bytes × Bytes) → List Reply
    public_row s none = []
    public_row s (some (user, blob)) =
        array (
          string user
          ⨾ string blob
          ⨾ found (srandmember s (codes "blob-refs:" ++ (user ++ (codes ":" ++ blob))))
          ⨾ found (db.hget s (codes "blob-inodes:" ++ user) blob)
          ⨾ end)
        ∷ []

    unfoldable pub public_rows : S → List Bytes → List Reply
    unfolding public_row
    public_rows s [] = []
    public_rows s (packed ∷ list) = public_row s (l.unpack packed) ++ public_rows s list

    unfoldable pub public_script : S → Reply
    unfolding public_rows
    public_script s = array (to_replies (public_rows s (db.lrange s public_blobs)))

module _ {ℓ κ ι} {S : Type ℓ} {J : Type κ} {V : Type ι} (db : Db S) (l : Lua J) (j : Json V)
    (user : Bytes) where
  -- A blob as it is found in an album.
  abbrev pub found_in : Bytes → BlobInode → Bytes → Blob BlobInode
  found_in blob inode coll = record { owner = user; collection = coll; id = blob; info = inode }

  rows_found :
      (s : S) (blob raw : Bytes) (inode : BlobInode) (colls : List Bytes)
      → db.hget s (blob_inode user) blob ≡ some raw
      → fields j raw ≡ some (some inode)
      → on_query_blob j user blob (pairs (elements (to_replies (query_rows db s user blob colls))))
        ≡ some (map (found_in blob inode) colls)
  unfolding on_query_blob query_rows pairs as_string add_found
  rows_found s blob raw inode [] h e = refl
  rows_found s blob raw inode (coll ∷ colls) h e =
      let others = rows_found s blob raw inode colls h e in rw (h, e, others)

  collections-found_in :
      (blob : Bytes) (inode : BlobInode) (colls : List Bytes)
      → map (λ b. b.collection) (map (found_in blob inode) colls) ≡ colls
  collections-found_in blob inode [] = refl
  collections-found_in blob inode (c ∷ colls) = rw (collections-found_in blob inode colls)

  -- While what the user has is consistent, `query_blob` of a blob with a legible inode completes with
  -- the blob as it is in each album that has it, and in no other.
  pub query_blob_finds :
      (s : S) (blob raw : Bytes) (inode : BlobInode) (coll : Bytes)
      → IsConsistent db l user s
      → db.hget s (blob_inode user) blob ≡ some raw
      → fields j raw ≡ some (some inode)
      → (blobs : List (Blob BlobInode)) × (on_query_blob j user blob
            (pairs (items (query_script db s user blob)))
          ≡ some blobs)
        × (blobs ≡ map (found_in blob inode) (map (λ b. b.collection) blobs))
        × (has coll (map (λ b. b.collection) blobs)
            ≡ is_some (db.hget s (collection user coll) blob))
  unfolding query_script items
  query_blob_finds s blob raw inode coll ok h e =
      let colls = db.smembers s (blob_refs user blob) in
      (
        map (found_in blob inode) colls,
        rows_found s blob raw inode colls h e,
        rw (collections-found_in blob inode colls),
        ap (has coll) (collections-found_in blob inode colls) ∙ sym (ok.linked blob coll),
      )
