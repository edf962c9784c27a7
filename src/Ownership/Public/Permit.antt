-- ===== src/Ownership/Public/Permit.antt =====
-- `set_permission_command` of src/server/hrb/Ownership.cc: the permission of a blob, and whether it is listed as public.
use hearty_rabbit.Prelude.{
  ◌≡◌, refl, true, false, List, [], ◌∷◌, ◌++◌, some, inl, inr, ltb, if◌then◌else◌, Bytes, codes,
  drop, length, is_some, bytes_eq, Bool-cases,
}
use hearty_rabbit.RedisKeys.{
  blob_refs, blob_owners, collection, collection_list, public_blobs, blob_inode,
}
use hearty_rabbit.Ownership.Store.{Db, DbLaws, without, hset, lrem, rpush}
use hearty_rabbit.Ownership.Scripts.{
  Lua, returned, after, publish, set_permission_of, set_permission_script,
}
use hearty_rabbit.Ownership.Invariant.{IsConsistent}
use hearty_rabbit.Ownership.Public.{requeue}

module _ {ℓ κ} {S : Type ℓ} {J : Type κ} (db : Db S) (laws : DbLaws db) (l : Lua J)
    (u : Bytes) where
  abbrev pub publics : S → List Bytes
  publics s = db.lrange s public_blobs

  publish_list : (s : S) (m : Bytes) → publics (publish db l u s m) ≡ requeue m (publics s)
  unfolding publish public_blobs
  publish_list s m =
      let before : db.lrange (db.call (db.call s (lrem public_blobs m)) (rpush public_blobs m))
            public_blobs
          ≡ without m (publics s) ++ m ∷ [] =
        simp (laws.lrange_rpush, laws.lrange_lrem) in
      elim (Bool-cases (ltb 100 (length (without m (publics s) ++ m ∷ [])))) [
        | inl y ↦ simp (before, y, laws.lrange_lpop)
        | inr n ↦ simp (before, n)
      ]

  -- Nothing but the public list changes.
  publish_hget :
      (s : S) (m j f : Bytes)
      → bytes_eq public_blobs j ≡ false
      → db.hget (publish db l u s m) j f ≡ db.hget s j f
  unfolding publish
  publish_hget s m j f n =
      elim (Bool-cases (
        ltb 100 (
          length (
            db.lrange (db.call (db.call s (lrem public_blobs m)) (rpush public_blobs m))
              public_blobs)))) [
                | inl y ↦ simp (y, n, laws.hget_frame)
                | inr k ↦ simp (k, n, laws.hget_frame)
              ]

  publish_smembers :
      (s : S) (m j : Bytes)
      → bytes_eq public_blobs j ≡ false
      → db.smembers (publish db l u s m) j ≡ db.smembers s j
  unfolding publish
  publish_smembers s m j n =
      elim (Bool-cases (
        ltb 100 (
          length (
            db.lrange (db.call (db.call s (lrem public_blobs m)) (rpush public_blobs m))
              public_blobs)))) [
                | inl y ↦ simp (y, n, laws.smembers_frame)
                | inr k ↦ simp (k, n, laws.smembers_frame)
              ]

  publish_exists :
      (s : S) (m j : Bytes)
      → bytes_eq public_blobs j ≡ false
      → db.exists (publish db l u s m) j ≡ db.exists s j
  unfolding publish
  publish_exists s m j n =
      elim (Bool-cases (
        ltb 100 (
          length (
            db.lrange (db.call (db.call s (lrem public_blobs m)) (rpush public_blobs m))
              public_blobs)))) [
                | inl y ↦ simp (y, n, laws.exists_frame)
                | inr k ↦ simp (k, n, laws.exists_frame)
              ]

  -- A state that differs only in the public list, and in the text of an inode that is there.
  pub Only_publics-IsConsistent :
      (s t : S)
      → ((j f : Bytes)
          → bytes_eq public_blobs j ≡ false
          → is_some (db.hget t j f) ≡ is_some (db.hget s j f))
      → ((c : Bytes) → db.hget t (collection_list u) c ≡ db.hget s (collection_list u) c)
      → ((j : Bytes)
          → bytes_eq public_blobs j ≡ false
          → bytes_eq (blob_inode u) j ≡ false
          → db.smembers t j ≡ db.smembers s j)
      → ((j : Bytes)
          → bytes_eq public_blobs j ≡ false
          → bytes_eq (blob_inode u) j ≡ false
          → db.exists t j ≡ db.exists s j)
      → IsConsistent db l u s
      → IsConsistent db l u t
  unfolding blob_refs blob_owners collection collection_list blob_inode public_blobs
  Only_publics-IsConsistent s t fields list members exists inv = record {
    linked = λ b c.
        rw (fields (collection u c) b refl, members (blob_refs u b) refl refl) (inv.linked b c);
    owned =
        λ b. rw (members (blob_owners b) refl refl, exists (blob_refs u b) refl refl) (inv.owned b);
    stored =
        λ b. rw (fields (blob_inode u) b refl, exists (blob_refs u b) refl refl) (inv.stored b);
    listed = λ c.
        rw (fields (collection_list u) c refl, exists (collection u c) refl refl) (inv.listed c);
    covered = λ c text h.
        let (b, k, there) = inv.covered c text (rw (list c) at h) in
        (b, k, rw (fields (collection u c) b refl) there);
  }

  module _ (s : S) (blob perm original : Bytes)
      (stored : db.hget s (blob_inode u) blob ≡ some original) where
    abbrev pub permitted : S
    permitted = after (set_permission_script db l u s blob perm)

    abbrev pub packed : Bytes
    packed = l.pack u blob

    abbrev pub marked : S
    marked = db.call s (hset (blob_inode u) blob (perm ++ drop 1 original))

    pub permit_runs :
        set_permission_script db l u s blob perm
        ≡ returned
            (if bytes_eq perm (codes "*")
              then publish db l u marked packed
              else db.call marked (lrem public_blobs packed))
            true
    unfolding set_permission_script set_permission_of
    permit_runs = rw stored

    -- What a key other than the public list has is what it has when the inode is written.
    pub permit_hget :
        (j f : Bytes) → bytes_eq public_blobs j ≡ false → db.hget permitted j f ≡ db.hget marked j f
    permit_hget j f n = rw permit_runs (elim (Bool-cases (bytes_eq perm (codes "*"))) [
      | inl y ↦ rw y (publish_hget marked packed j f n)
      | inr k ↦ rw k (laws.hget_frame marked (lrem public_blobs packed) j f n)
    ])

    pub permit_smembers :
        (j : Bytes)
        → bytes_eq public_blobs j ≡ false
        → db.smembers permitted j ≡ db.smembers marked j
    permit_smembers j n = rw permit_runs (elim (Bool-cases (bytes_eq perm (codes "*"))) [
      | inl y ↦ rw y (publish_smembers marked packed j n)
      | inr k ↦ rw k (laws.smembers_frame marked (lrem public_blobs packed) j n)
    ])

    pub permit_exists :
        (j : Bytes) → bytes_eq public_blobs j ≡ false → db.exists permitted j ≡ db.exists marked j
    permit_exists j n = rw permit_runs (elim (Bool-cases (bytes_eq perm (codes "*"))) [
      | inl y ↦ rw y (publish_exists marked packed j n)
      | inr k ↦ rw k (laws.exists_frame marked (lrem public_blobs packed) j n)
    ])

    pub permit_publics : publics permitted ≡ (
        if bytes_eq perm (codes "*")
        then requeue packed (publics s)
        else without packed (publics s))
    unfolding public_blobs blob_inode
    permit_publics = rw permit_runs (elim (Bool-cases (bytes_eq perm (codes "*"))) [
      | inl y ↦ rw (y, publish_list marked packed) (simp laws.lrange_frame)
      | inr k ↦ rw k (simp (laws.lrange_lrem, laws.lrange_frame))
    ])
