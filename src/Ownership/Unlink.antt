-- ===== src/Ownership/Unlink.antt =====
-- `unlink_command` of src/server/hrb/Ownership.cc: what each key of the user holds afterwards.
pub mod Trim
pub mod Invariant
use hearty_rabbit.Prelude.{
  ℕ, ◌≡◌, refl, Bool, true, false, not, ◌&&◌, ◌||◌, List, [], ◌∷◌, ◌++◌, Option, none, some,
  if◌then◌else◌, Bytes, is_some, is_empty, has, bytes_eq, bytes_eq_refl, bytes_eq_sound, Bool-cases,
  Option-cases, inl, inr, arith, ◌⊎◌,
}
use hearty_rabbit.RedisKeys.{
  blob_refs, blob_owners, collection, collection_list, public_blobs, blob_inode,
}
use hearty_rabbit.Ownership.Store.{Db, DbLaws, Kind, sadd, srem, hset, hdel}
use hearty_rabbit.Ownership.Scripts.{
  Lua, LuaLaws, Outcome, returned, raised, after, forget_blob, drop_link, trim_album, fix_cover,
  recover, replace_cover, album_of, unlink_script, tohex,
}
use hearty_rabbit.Ownership.Fields.{
  hget_collection_hdel, blob_refs_srem, blob_owners_srem, exists_has, exists_field, has_exists,
  field_exists, blob_refs-eq, collection-eq,
}

module _ {ℓ κ} {S : Type ℓ} {J : Type κ} (db : Db S) (laws : DbLaws db) (l : Lua J)
    (u : Bytes) where
  module _ (s : S) (coll blob : Bytes) where
    -- Whether an album still has the blob, as the script asks after `SREM`.
    abbrev pub still : Bool
    still = db.exists (db.call s (srem (blob_refs u blob) coll)) (blob_refs u blob)

    abbrev pub dropped : S
    dropped = drop_link db l u s coll blob

    pub drop_album :
        (d e : Bytes)
        → db.hget dropped (collection u d) e
          ≡ (if bytes_eq coll d && bytes_eq blob e then none else db.hget s (collection u d) e)
    unfolding drop_link forget_blob collection_list blob_inode blob_refs blob_owners collection
        public_blobs
    drop_album d e = elim (Bool-cases still) [
      | inl y ↦ simp (y, laws.hget_frame, hget_collection_hdel db laws)
      | inr n ↦ simp (n, laws.hget_frame, hget_collection_hdel db laws)
    ]

    pub drop_refs :
        (e d : Bytes)
        → has d (db.smembers dropped (blob_refs u e))
          ≡ not (bytes_eq blob e && bytes_eq coll d) && has d (db.smembers s (blob_refs u e))
    unfolding drop_link forget_blob collection_list blob_inode blob_refs blob_owners collection
        public_blobs
    drop_refs e d = elim (Bool-cases still) [
      | inl y ↦ simp (y, laws.smembers_frame, blob_refs_srem db laws)
      | inr n ↦ simp (n, laws.smembers_frame, blob_refs_srem db laws)
    ]

    pub drop_owners :
        (e d : Bytes)
        → has d (db.smembers dropped (blob_owners e))
          ≡ (still || not (bytes_eq blob e && bytes_eq u d))
            && has d (db.smembers s (blob_owners e))
    unfolding drop_link forget_blob collection_list blob_inode blob_refs blob_owners collection
        public_blobs
    drop_owners e d = elim (Bool-cases still) [
      | inl y ↦ simp (y, laws.smembers_frame)
      | inr n ↦ simp (n, laws.smembers_frame, blob_owners_srem db laws)
    ]

    pub drop_inode :
        (e : Bytes)
        → db.hget dropped (blob_inode u) e
          ≡ (if not still && bytes_eq blob e then none else db.hget s (blob_inode u) e)
    unfolding drop_link forget_blob collection_list blob_inode blob_refs blob_owners collection
        public_blobs
    drop_inode e = elim (Bool-cases still) [
      | inl y ↦ simp (y, laws.hget_frame)
      | inr n ↦ simp (n, laws.hget_frame, laws.hget_hdel)
    ]

    pub drop_list :
        (d : Bytes) → db.hget dropped (collection_list u) d ≡ db.hget s (collection_list u) d
    unfolding drop_link forget_blob collection_list blob_inode blob_refs blob_owners collection
        public_blobs
    drop_list d = elim (Bool-cases still) [
      | inl y ↦ simp (y, laws.hget_frame)
      | inr n ↦ simp (n, laws.hget_frame)
    ]

    pub drop_exists_refs : db.exists dropped (blob_refs u blob) ≡ still
    unfolding drop_link forget_blob collection_list blob_inode blob_refs blob_owners collection
        public_blobs
    drop_exists_refs = elim (Bool-cases still) [
      | inl y ↦ simp (y, laws.exists_frame)
      | inr n ↦ simp (n, laws.exists_frame)
    ]

    pub drop_exists_refs_other :
        (e : Bytes)
        → bytes_eq blob e ≡ false
        → db.exists dropped (blob_refs u e) ≡ db.exists s (blob_refs u e)
    unfolding drop_link forget_blob collection_list blob_inode blob_refs blob_owners collection
        public_blobs
    drop_exists_refs_other e d = elim (Bool-cases still) [
      | inl y ↦ simp (y, laws.exists_frame, blob_refs-eq u blob e, d)
      | inr n ↦ simp (n, laws.exists_frame, blob_refs-eq u blob e, d)
    ]

    pub drop_exists_album_other :
        (d : Bytes)
        → bytes_eq coll d ≡ false
        → db.exists dropped (collection u d) ≡ db.exists s (collection u d)
    unfolding drop_link forget_blob collection_list blob_inode blob_refs blob_owners collection
        public_blobs
    drop_exists_album_other d e = elim (Bool-cases still) [
      | inl y ↦ simp (y, laws.exists_frame, collection-eq u coll d, e)
      | inr n ↦ simp (n, laws.exists_frame, collection-eq u coll d, e)
    ]

    -- If an album still has the blob, one had it before.
    pub still_exists : still ≡ true → db.exists s (blob_refs u blob) ≡ true
    still_exists y =
        let (m, h) =
          has_exists db laws u (db.call s (srem (blob_refs u blob) coll)) (blob_refs u blob)
            (unfold blob_refs in refl) y in
        exists_has db laws u s (blob_refs u blob) m (unfold blob_refs in refl)
          (ground (arith, h, blob_refs_srem db laws u s blob coll blob m))

    pub drop_exists_album :
        db.exists dropped (collection u coll) ≡ true → db.exists s (collection u coll) ≡ true
    drop_exists_album y =
        let (f, fs, e, h) =
          field_exists db laws u dropped (collection u coll) (unfold collection in refl) y in
        exists_field db laws u s (collection u coll) f (unfold collection in refl)
          (ground (arith, h, drop_album coll f))
