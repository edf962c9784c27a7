-- ===== src/RedisKeys.antt =====
-- src/server/hrb/RedisKeys.cc: the names under which redis keeps blobs and albums.
use hearty_rabbit.Prelude.{
  ℕ, ◌-◌, ◌≡◌, refl, sym, ap, ◌∙◌, [], ◌∷◌, ◌++◌, append_assoc, if◌then◌else◌, Bytes, codes, length,
  length-append, take, drop, take-append, drop-append, is_prefix, Avoids, arith,
}
use hearty_rabbit.Escape.Split.{split_left}
use hearty_rabbit.Escape.SplitLaws.{split_left-append}

unfoldable pub blob_refs : Bytes → Bytes → Bytes
blob_refs user blob = codes "blob-refs:" ++ (user ++ b':' ∷ blob)

unfoldable pub blob_owners : Bytes → Bytes
blob_owners blob = codes "blob-owners:" ++ blob

unfoldable pub collection : Bytes → Bytes → Bytes
collection user coll = codes "coll:" ++ (user ++ b':' ∷ coll)

unfoldable pub collection_list : Bytes → Bytes
collection_list user = codes "colls:" ++ user

unfoldable pub public_blobs : Bytes
public_blobs = codes "public_blobs"

unfoldable pub blob_inode : Bytes → Bytes
blob_inode user = codes "blob-inodes:" ++ user

-- What a key names.
pub data Key : Type 0 where
  refs : Bytes → Bytes → Key
  owners : Bytes → Key
  album : Bytes → Bytes → Key
  albums : Bytes → Key
  publics : Key
  inodes : Bytes → Key

unfoldable pub encode : Key → Bytes
unfolding blob_refs blob_owners collection collection_list public_blobs blob_inode
encode (refs user blob) = blob_refs user blob
encode (owners blob) = blob_owners blob
encode (album user coll) = collection user coll
encode (albums user) = collection_list user
encode publics = public_blobs
encode (inodes user) = blob_inode user

-- Blob IDs have 20 bytes, and the owner of an album has no colon in the name.
abbrev pub IsKey : Key → Type 0
IsKey (refs user blob) = length blob ≡ 20
IsKey (album user coll) = Avoids (codes ":") user
IsKey _ = Unit

decode : Bytes → Key
decode s =
    if is_prefix (codes "blob-refs:") s
    then (let rest = drop 10 s in
        refs (take (length rest - 21) rest) (drop (length rest - 20) rest))
    else if is_prefix (codes "blob-owners:") s
    then owners (drop 12 s)
    else if is_prefix (codes "coll:") s
    then (let cut = split_left (drop 5 s) (codes ":") in album cut.field cut.rest)
    else if is_prefix (codes "colls:") s
    then albums (drop 6 s)
    else if is_prefix (codes "blob-inodes:") s
    then inodes (drop 12 s)
    else publics

-- The last bytes of a text.
last_bytes :
    (user blob : Bytes) (n : ℕ)
    → length blob ≡ n
    → drop (length (user ++ b':' ∷ blob) - n) (user ++ b':' ∷ blob) ≡ blob
last_bytes user blob n h =
    let shape : user ++ b':' ∷ blob ≡ (user ++ b':' ∷ []) ++ blob = rw append_assoc in
    let size : length ((user ++ b':' ∷ []) ++ blob) - n ≡ length (user ++ b':' ∷ []) =
      omega (arith, length-append (user ++ b':' ∷ []) blob, h) in
    rw (shape, size) (drop-append (user ++ b':' ∷ []) blob)

decode-encode : (k : Key) → IsKey k → decode (encode k) ≡ k
unfolding decode encode blob_refs blob_owners collection collection_list public_blobs blob_inode
decode-encode (refs user blob) h =
    let size = length-append user (b':' ∷ blob) in
    let before : length (user ++ b':' ∷ blob) - 21 ≡ length user = omega (arith, size, h) in
    rw (before, take-append) (ap (refs user) (last_bytes user blob 20 h))
decode-encode (owners blob) h = refl
decode-encode (album user coll) h = rw (split_left-append user b':' coll (codes ":") h refl)
decode-encode (albums user) h = refl
decode-encode publics h = refl
decode-encode (inodes user) h = refl

-- No two things are kept under one key, neither of two kinds nor of two users, blobs or albums, if the
-- blobs have IDs of 20 bytes and the owners of the albums no colon in their names.
pub encode_inj : (k j : Key) → IsKey k → IsKey j → encode k ≡ encode j → k ≡ j
encode_inj k j hk hj e = sym (decode-encode k hk) ∙ (ap decode e ∙ decode-encode j hj)
