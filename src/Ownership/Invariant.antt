-- ===== src/Ownership/Invariant.antt =====
-- src/server/hrb/Ownership.cc: what holds of the keys of one user between two scripts.
use hearty_rabbit.Prelude.{◌≡◌, true, some, Bytes, is_some, has}
use hearty_rabbit.RedisKeys.{blob_refs, blob_owners, collection, collection_list, blob_inode}
use hearty_rabbit.Ownership.Store.{Db}
use hearty_rabbit.Ownership.Scripts.{Lua, cover_of, tohex}

module _ {ℓ κ} {S : Type ℓ} {J : Type κ} (db : Db S) (l : Lua J) (u : Bytes) where
  -- The text names, as a cover, a blob of the album.
  abbrev pub IsCovered : S → Bytes → Bytes → Type 0
  IsCovered s c text =
      (b : Bytes) × (cover_of l text ≡ some (tohex b))
      × (is_some (db.hget s (collection u c) b) ≡ true)

  -- An album holds a blob exactly if the blob refers to the album; the user owns the blob and keeps
  -- its inode exactly if some album has it; the list names exactly the albums that have a blob; and
  -- the cover of an album is a blob in it.
  pub record IsConsistent (s : S) : Type 0 where
    pub linked :
        (b c : Bytes)
        → is_some (db.hget s (collection u c) b) ≡ has c (db.smembers s (blob_refs u b))
    pub owned : (b : Bytes) → has u (db.smembers s (blob_owners b)) ≡ db.exists s (blob_refs u b)
    pub stored : (b : Bytes) → is_some (db.hget s (blob_inode u) b) ≡ db.exists s (blob_refs u b)
    pub listed :
        (c : Bytes) → is_some (db.hget s (collection_list u) c) ≡ db.exists s (collection u c)
    pub covered :
        (c text : Bytes) → db.hget s (collection_list u) c ≡ some text → IsCovered s c text
