-- ===== src/Ownership/Scripts.antt =====
-- The Lua scripts of src/server/hrb/Ownership.cc, which redis runs one at a time. The modules
-- `cjson` and `cmsgpack` that redis gives to a script are a record of operations.
use hearty_rabbit.Prelude.{
  ℕ, ◌/◌, ◌%◌, ◌≡◌, Bool, true, false, ◌&&◌, List, [], ◌∷◌, ◌++◌, Option, none, some, ltb,
  if◌then◌else◌, Bytes, codes, is_empty, is_some, bytes_eq, drop, length, get_or,
}
use hearty_rabbit.RedisKeys.{
  blob_refs, blob_owners, collection, collection_list, public_blobs, blob_inode,
}
use hearty_rabbit.Ownership.Store.{Db, sadd, srem, hset, hsetnx, hdel, rpush, lrem, lpop}

-- `J` is a decoded table. `decode` is `none` where it, or indexing what it gives, raises an error.
pub record Lua {ℓ} (J : Type ℓ) : Type ℓ where
  pub encode : J → Bytes
  pub decode : Bytes → Option J
  pub cover : J → Option Bytes
  pub with_cover : J → Bytes → J
  pub cover_only : Bytes → J
  pub pack : Bytes → Bytes → Bytes
  pub unpack : Bytes → Option (Bytes × Bytes)

-- The cover in the text of an album.
unfoldable pub cover_of {ℓ} : {J : Type ℓ} → Lua J → Bytes → Option Bytes
cover_of l text = elim (l.decode text) [ none ↦ none | some a ↦ l.cover a ]

-- What was encoded is decoded with the same cover, and packing is undone.
pub record LuaLaws {ℓ} {J : Type ℓ} (l : Lua J) : Type ℓ where
  pub cover_of-with_cover : (a : J) (c : Bytes) → cover_of l (l.encode (l.with_cover a c)) ≡ some c
  pub cover_of-cover_only : (c : Bytes) → cover_of l (l.encode (l.cover_only c)) ≡ some c
  pub unpack-pack : (user blob : Bytes) → l.unpack (l.pack user blob) ≡ some (user, blob)

abbrev pub nibble : ℕ → ℕ
nibble d = get_or (codes "0123456789abcdef") d 0

-- The script's own `tohex`: `string.format('%02x', …)` of each byte.
unfoldable pub tohex : Bytes → Bytes
tohex [] = []
tohex (c ∷ s) = nibble (c / 16) ∷ nibble (c % 16) ∷ tohex s

-- A script that raises an error stops there; what it changed before stays changed.
pub data Outcome {ℓ} (S : Type ℓ) : Type ℓ where
  returned : S → Bool → Outcome S
  raised : S → Outcome S

abbrev pub after {ℓ} : {S : Type ℓ} → Outcome S → S
after (returned s r) = s
after (raised s) = s

abbrev pub has_raised {ℓ} : {S : Type ℓ} → Outcome S → Bool
has_raised (returned s r) = false
has_raised (raised s) = true

-- What the script returned: whether it is 1 for `set_cover_command`.
abbrev pub replied {ℓ} : {S : Type ℓ} → Outcome S → Bool
replied (returned s r) = r
replied (raised s) = false

module _ {ℓ κ} {S : Type ℓ} {J : Type κ} (db : Db S) (l : Lua J) (user : Bytes) where
  -- `HSETNX` of the blob's inode, unless it is empty.
  unfoldable pub store_entry : S → Bytes → Bytes → S
  store_entry s blob entry =
      if is_empty entry then s else db.call s (hsetnx (blob_inode user) blob entry)

  -- The members of `KEYS` and `ARGV` that name the blob are computed as `link_command` does, but
  -- `cover`, the blob in hexadecimal.
  unfoldable pub link_script : S → Bytes → Bytes → Bytes → Bytes → Bytes → S
  unfolding store_entry
  link_script s coll blob cover entry filename =
      let s1 = db.call s (sadd (blob_refs user blob) coll) in
      let s2 = db.call s1 (sadd (blob_owners blob) user) in
      let s3 = store_entry s2 blob entry in
      let s4 = db.call s3 (hset (collection user coll) blob filename) in
      db.call s4 (hsetnx (collection_list user) coll (l.encode (l.cover_only cover)))

  -- The commands after `HGET`, which gives `false` for a blob that is not there; `HSET` takes no
  -- `false`.
  unfoldable pub move_filename : S → Bytes → Bytes → Bytes → Bytes → Option Bytes → Outcome S
  move_filename s src dest blob cover none = raised s
  move_filename s src dest blob cover (some filename) =
      let s1 = db.call s (hset (collection user dest) blob filename) in
      let s2 = db.call s1 (hdel (collection user src) blob) in
      returned (db.call s2 (hsetnx (collection_list user) dest (l.encode (l.cover_only cover))))
        true

  unfoldable pub move_script : S → Bytes → Bytes → Bytes → Bytes → Outcome S
  unfolding move_filename
  move_script s src dest blob cover =
      let s1 = db.call s (sadd (blob_refs user blob) dest) in
      let s2 = db.call s1 (srem (blob_refs user blob) src) in
      move_filename s2 src dest blob cover (db.hget s2 (collection user src) blob)

  -- What `unlink_command` does when no album has the blob any more.
  unfoldable pub forget_blob : S → Bytes → S
  forget_blob s blob =
      let s1 = db.call s (srem (blob_owners blob) user) in
      let s2 = db.call s1 (hdel (blob_inode user) blob) in
      db.call s2 (lrem public_blobs (l.pack user blob))

  -- The first of the keys, in hexadecimal; the hash exists, so there is one.
  unfoldable pub recover : S → Bytes → J → List Bytes → Outcome S
  recover s coll a [] = raised s
  recover s coll a (first ∷ rest) =
      returned
        (db.call s (hset (collection_list user) coll (l.encode (l.with_cover a (tohex first)))))
        true

  unfoldable pub replace_cover : S → Bytes → Bytes → J → Option Bytes → Outcome S
  unfolding recover
  replace_cover s coll blob a none = returned s true
  replace_cover s coll blob a (some cover) =
      if bytes_eq cover (tohex blob)
      then recover s coll a (db.hkeys s (collection user coll))
      else returned s true

  unfoldable pub fix_cover : S → Bytes → Bytes → Option J → Outcome S
  unfolding replace_cover
  fix_cover s coll blob none = raised s
  fix_cover s coll blob (some a) = replace_cover s coll blob a (l.cover a)

  -- `cjson.decode(redis.call('HGET', coll_list, coll))`
  unfoldable pub album_of : Option Bytes → Option J
  album_of none = none
  album_of (some text) = l.decode text

  -- The last part of `unlink_command`.
  unfoldable pub trim_album : S → Bytes → Bytes → Outcome S
  unfolding fix_cover album_of
  trim_album s coll blob =
      if db.exists s (collection user coll)
      then fix_cover s coll blob (album_of (db.hget s (collection_list user) coll))
      else returned (db.call s (hdel (collection_list user) coll)) true

  -- The part before it.
  unfoldable pub drop_link : S → Bytes → Bytes → S
  unfolding forget_blob
  drop_link s coll blob =
      let s1 = db.call s (srem (blob_refs user blob) coll) in
      let s2 = if db.exists s1 (blob_refs user blob) then s1 else forget_blob s1 blob in
      db.call s2 (hdel (collection user coll) blob)

  unfoldable pub unlink_script : S → Bytes → Bytes → Outcome S
  unfolding drop_link trim_album
  unlink_script s coll blob = trim_album (drop_link s coll blob) coll blob

  -- The public list is cut to a hundred blobs; `RPUSH` replies with the new length.
  unfoldable pub publish : S → Bytes → S
  publish s packed =
      let s1 = db.call s (lrem public_blobs packed) in
      let s2 = db.call s1 (rpush public_blobs packed) in
      if ltb 100 (length (db.lrange s2 public_blobs)) then db.call s2 (lpop public_blobs) else s2

  -- `string.sub(original, 2, -1)`, which takes no `false`.
  unfoldable pub set_permission_of : S → Bytes → Bytes → Option Bytes → Outcome S
  unfolding publish
  set_permission_of s blob perm none = raised s
  set_permission_of s blob perm (some original) =
      let s1 = db.call s (hset (blob_inode user) blob (perm ++ drop 1 original)) in
      let packed = l.pack user blob in
      returned
        (if bytes_eq perm (codes "*")
          then publish s1 packed
          else db.call s1 (lrem public_blobs packed))
        true

  unfoldable pub set_permission_script : S → Bytes → Bytes → Outcome S
  unfolding set_permission_of
  set_permission_script s blob perm =
      set_permission_of s blob perm (db.hget s (blob_inode user) blob)

  unfoldable pub set_cover_of : S → Bytes → Bytes → Option J → Outcome S
  set_cover_of s coll cover_hex none = raised s
  set_cover_of s coll cover_hex (some a) =
      returned (db.call s (hset (collection_list user) coll (l.encode (l.with_cover a cover_hex))))
        true

  -- The script returns 1 where the model returns `true`.
  unfoldable pub set_cover_script : S → Bytes → Bytes → Bytes → Outcome S
  unfolding set_cover_of album_of
  set_cover_script s coll cover_hex cover =
      let json = db.hget s (collection_list user) coll in
      if is_some json && is_some (db.hget s (collection user coll) cover)
      then set_cover_of s coll cover_hex (album_of json)
      else returned s false

  -- `HSET coll:… blob filename` and `HSET blob-inodes:… blob entry`, given without a script.
  unfoldable pub rename_blob : S → Bytes → Bytes → Bytes → S
  rename_blob s coll blob filename = db.call s (hset (collection user coll) blob filename)

  unfoldable pub update : S → Bytes → Bytes → S
  update s blob entry = db.call s (hset (blob_inode user) blob entry)
