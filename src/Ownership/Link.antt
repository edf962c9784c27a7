-- ===== src/Ownership/Link.antt =====
-- `link_command` of src/server/hrb/Ownership.cc: what each key of the user holds afterwards.
pub mod Invariant
use hearty_rabbit.Prelude.{
  ℕ, ◌≡◌, refl, Bool, true, false, not, ◌&&◌, ◌||◌, List, [], ◌∷◌, ◌++◌, Option, none, some,
  if◌then◌else◌, Bytes, is_some, is_empty, has, bytes_eq, bytes_eq_refl, bytes_eq_sound, Bool-cases,
  inl, inr,
}
use hearty_rabbit.RedisKeys.{
  blob_refs, blob_owners, collection, collection_list, public_blobs, blob_inode,
}
use hearty_rabbit.Ownership.Store.{Db, DbLaws, Kind, value_or, sadd, hset, hsetnx}
use hearty_rabbit.Ownership.Scripts.{Lua, LuaLaws, store_entry, link_script}
use hearty_rabbit.Ownership.Fields.{
  hget_collection_hset, blob_refs_sadd, blob_owners_sadd, exists_has, exists_field, blob_refs-eq,
  collection-eq,
}

module _ {ℓ κ} {S : Type ℓ} {J : Type κ} (db : Db S) (laws : DbLaws db) (l : Lua J)
    (u : Bytes) where
  module _ (s : S) (coll blob cover entry filename : Bytes) (full : is_empty entry ≡ false) where
    abbrev pub linked : S
    linked = link_script db l u s coll blob cover entry filename

    pub link_album :
        (d e : Bytes)
        → db.hget linked (collection u d) e ≡ (
            if bytes_eq coll d && bytes_eq blob e
            then some filename
            else db.hget s (collection u d) e)
    unfolding link_script store_entry collection_list blob_inode blob_refs blob_owners collection
    link_album d e = simp (full, laws.hget_frame, hget_collection_hset db laws)

    pub link_refs :
        (e d : Bytes)
        → has d (db.smembers linked (blob_refs u e))
          ≡ (bytes_eq blob e && bytes_eq coll d) || has d (db.smembers s (blob_refs u e))
    unfolding link_script store_entry collection_list blob_inode blob_refs blob_owners collection
    link_refs e d = simp (full, laws.smembers_frame, blob_refs_sadd db laws)

    pub link_owners :
        (e d : Bytes)
        → has d (db.smembers linked (blob_owners e))
          ≡ (bytes_eq blob e && bytes_eq u d) || has d (db.smembers s (blob_owners e))
    unfolding link_script store_entry collection_list blob_inode blob_refs blob_owners collection
    link_owners e d = simp (full, laws.smembers_frame, blob_owners_sadd db laws)

    pub link_inode :
        (e : Bytes)
        → db.hget linked (blob_inode u) e ≡ (
            if bytes_eq blob e
            then some (value_or (db.hget s (blob_inode u) blob) entry)
            else db.hget s (blob_inode u) e)
    unfolding link_script store_entry collection_list blob_inode blob_refs blob_owners collection
    link_inode e = simp (full, laws.hget_frame, laws.hget_hsetnx)

    pub link_list :
        (d : Bytes)
        → db.hget linked (collection_list u) d ≡ (
            if bytes_eq coll d
            then some
                (value_or (db.hget s (collection_list u) coll) (l.encode (l.cover_only cover)))
            else db.hget s (collection_list u) d)
    unfolding link_script store_entry collection_list blob_inode blob_refs blob_owners collection
    link_list e = simp (full, laws.hget_frame, laws.hget_hsetnx)

    link_exists_refs_other :
        (e : Bytes)
        → bytes_eq blob e ≡ false
        → db.exists linked (blob_refs u e) ≡ db.exists s (blob_refs u e)
    unfolding link_script store_entry collection_list blob_inode blob_refs blob_owners collection
    link_exists_refs_other e n = simp (full, laws.exists_frame, blob_refs-eq u blob e, n)

    pub link_exists_refs :
        (e : Bytes)
        → db.exists linked (blob_refs u e) ≡ bytes_eq blob e || db.exists s (blob_refs u e)
    link_exists_refs e = elim (Bool-cases (bytes_eq blob e)) [
      | inl y ↦ rw y (
          exists_has db laws u linked (blob_refs u e) coll (unfold blob_refs in refl)
            (rw (link_refs e coll, y, bytes_eq_refl coll)))
      | inr n ↦ rw n (link_exists_refs_other e n)
    ]

    link_exists_album_other :
        (d : Bytes)
        → bytes_eq coll d ≡ false
        → db.exists linked (collection u d) ≡ db.exists s (collection u d)
    unfolding link_script store_entry collection_list blob_inode blob_refs blob_owners collection
    link_exists_album_other d n = simp (full, laws.exists_frame, collection-eq u coll d, n)

    pub link_exists_album :
        (d : Bytes)
        → db.exists linked (collection u d) ≡ bytes_eq coll d || db.exists s (collection u d)
    link_exists_album d = elim (Bool-cases (bytes_eq coll d)) [
      | inl y ↦ rw y (
          exists_field db laws u linked (collection u d) blob (unfold collection in refl)
            (rw (link_album d blob, y, bytes_eq_refl blob)))
      | inr n ↦ rw n (link_exists_album_other d n)
    ]
