-- ===== src/Handler/Publics.antt =====
-- `list_public_blobs` of src/server/hrb/SessionHandler.ipp: the page of public blobs.
use hearty_rabbit.Prelude.{
  ◌≡◌, ◌∙◌, refl, sym, Bool, true, false, ◌&&◌, ◌||◌, ◌==◌, List, [], ◌∷◌, ◌++◌, Option, none, some,
  if◌then◌else◌, Bytes, codes, is_empty, bytes_eq, length, ◌>>=◌, All, Bool-cases, Option-cases,
  inl, inr, arith,
}
use hearty_rabbit.Redis.Reply.{Reply, Error, as_string, as_array_checked, items, elements}
use hearty_rabbit.Permission.{public, private}
use hearty_rabbit.ObjectId.{from_raw}
use hearty_rabbit.BlobInode.{Json, BlobInode}
use hearty_rabbit.BlobInode.Record.{fields, permission, fields_perm}
use hearty_rabbit.Collection.{Blob}
use hearty_rabbit.RedisKeys.{blob_inode, public_blobs}
use hearty_rabbit.Ownership.Store.{Db}
use hearty_rabbit.Ownership.Scripts.{Lua}
use hearty_rabbit.Ownership.Replies.{
  found, to_replies, elements-to_replies, add_found, add_public, on_list_public_blobs,
}
use hearty_rabbit.Ownership.Query.{public_row, public_rows, public_script}

-- The blobs that are shown: those of a user, or of all users for the empty name.
unfoldable pub is_shown : Bytes → Blob BlobInode → Bool
is_shown user blob = (is_empty user || bytes_eq user blob.owner) && blob.info.perm == public

unfoldable pub pub_blobs : Bytes → List (Blob BlobInode) → List (Blob BlobInode)
unfolding is_shown
pub_blobs user [] = []
pub_blobs user (blob ∷ blobs) =
    let rest = pub_blobs user blobs in if is_shown user blob then blob ∷ rest else rest

-- What is sent, once redis has replied.
unfoldable pub list_public_blobs {ι} :
    {V : Type ι} → Json V → Bytes → Bytes → Reply → Option (List (Blob BlobInode))
unfolding pub_blobs
list_public_blobs j auth user reply = do
  blobs ← on_list_public_blobs j auth (items reply)
  some (pub_blobs user blobs)

module _ {ℓ κ ι} {S : Type ℓ} {J : Type κ} {V : Type ι} (db : Db S) (l : Lua J)
    (srandmember : S → Bytes → Option Bytes) (j : Json V) (auth user : Bytes) (s : S) where
  -- The inode that redis keeps of the blob says that it is public, and its owner is who was asked for.
  abbrev pub IsPublic : Blob BlobInode → Type 0
  IsPublic b =
      (raw : Bytes) × (db.hget s (blob_inode b.owner) b.id ≡ some raw)
      × (permission raw ≡ public)
      × (is_empty user || bytes_eq user b.owner ≡ true)

  -- An inode that is not there has the default permission, which is not the public one.
  stored_public :
      (o : Option Bytes) (inode : BlobInode)
      → fields j (as_string (found o)) ≡ some (some inode)
      → inode.perm ≡ public
      → (raw : Bytes) × (o ≡ some raw) × (permission raw ≡ public)
  unfolding as_string permission
  stored_public none inode e p =
      let absent : inode.perm ≡ private = fields_perm j [] inode e in
      absurd (omega (arith, absent, p))
  stored_public (some raw) inode e p = (raw, refl, sym (fields_perm j raw inode e) ∙ p)

  shown-IsPublic :
      (b : Blob BlobInode) (blobs : List (Blob BlobInode))
      → (is_shown user b ≡ true → IsPublic b)
      → All IsPublic (pub_blobs user blobs)
      → All IsPublic (pub_blobs user (b ∷ blobs))
  unfolding pub_blobs
  shown-IsPublic b blobs is_public others = elim (Bool-cases (is_shown user b)) [
    | inl y ↦ rw y (is_public y, others)
    | inr n ↦ rw n others
  ]

  is_shown-public :
      (b : Blob BlobInode)
      → is_shown user b ≡ true
      → (is_empty user || bytes_eq user b.owner ≡ true) × (b.info.perm ≡ public)
  unfolding is_shown
  is_shown-public b y = elim (Bool-cases (is_empty user || bytes_eq user b.owner)) [
    | inl k ↦ (k, ground (arith, y, k))
    | inr n ↦ let bad : false ≡ true = rw n at y in cc
  ]

  row-IsPublic :
      (owner id coll : Bytes) (blobs next : List (Blob BlobInode))
      → add_public j auth
          (from_raw id)
          Error.ok
          owner
          coll
          (as_string (found (db.hget s (blob_inode owner) id)))
          blobs
        ≡ some next
      → All IsPublic (pub_blobs user blobs)
      → All IsPublic (pub_blobs user next)
  unfolding add_public from_raw
  row-IsPublic owner id coll blobs next e others =
      let raw = as_string (found (db.hget s (blob_inode owner) id)) in
      elim (Bool-cases (length id == 20)) [
        | inr k ↦
            let read : some blobs ≡ some next = rw k at e in
            let same : next ≡ blobs = cc in rw same others
        | inl z ↦ elim (Option-cases (fields j raw)) [
          | inl n ↦ let bad : none ≡ some next = rw (z, n) at e in cc
          | inr (none, k) ↦
              let read : some blobs ≡ some next = rw (z, k) at e in
              let same : next ≡ blobs = cc in rw same others
          | inr (some inode, k) ↦
              let b : Blob BlobInode = record {
                owner = owner;
                collection = coll;
                id = id;
                info = inode;
              } in
              let read : some (b ∷ blobs) ≡ some next = rw (z, k, add_found) at e in
              let same : next ≡ b ∷ blobs = cc in
              rw same (
                shown-IsPublic b blobs
                  (λ y.
                    let (asked, marked) = is_shown-public b y in
                    let (raw, h, m) =
                      stored_public (db.hget s (blob_inode owner) id) inode k marked in
                    (raw, h, m, asked))
                  others)
        ]
      ]

  rows-IsPublic :
      (list : List Bytes) (blobs : List (Blob BlobInode))
      → on_list_public_blobs j auth (public_rows db l srandmember s list) ≡ some blobs
      → All IsPublic (pub_blobs user blobs)
  unfolding public_rows public_row on_list_public_blobs as_array_checked items as_string pub_blobs
  rows-IsPublic [] blobs e = let same : blobs ≡ [] = cc in rw same tt
  rows-IsPublic (packed ∷ list) blobs e = elim (Option-cases (l.unpack packed)) [
    | inl n ↦ rows-IsPublic list blobs (rw n at e)
    | inr ((owner, id), k) ↦
        elim (Option-cases (on_list_public_blobs j auth (public_rows db l srandmember s list))) [
          | inl n ↦ let bad : none ≡ some blobs = rw (k, n) at e in cc
          | inr (others, m) ↦
              row-IsPublic owner id
                (as_string
                  (found (srandmember s (codes "blob-refs:" ++ (owner ++ (codes ":" ++ id))))))
                others blobs (unfold blob_inode in rw (k, m) at e) (rows-IsPublic list others m)
        ]
  ]

  -- Every blob of the page of public blobs has, in redis, an inode of its owner with the public
  -- permission; and if the page is that of a user, it is that user's.
  pub list_public_blobs-IsPublic :
      (shown : List (Blob BlobInode))
      → list_public_blobs j auth user (public_script db l srandmember s) ≡ some shown
      → All IsPublic shown
  unfolding list_public_blobs public_script items
  list_public_blobs-IsPublic shown e =
      let rows = public_rows db l srandmember s (db.lrange s public_blobs) in
      elim (Option-cases (on_list_public_blobs j auth (elements (to_replies rows)))) [
        | inl n ↦ let bad : none ≡ some shown = rw n at e in cc
        | inr (blobs, k) ↦
            let read : some (pub_blobs user blobs) ≡ some shown = rw k at e in
            let same : shown ≡ pub_blobs user blobs = cc in
            rw same
              (rows-IsPublic (db.lrange s public_blobs) blobs (rw (← elements-to_replies rows) k))
      ]
