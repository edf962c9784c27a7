-- ===== src/Ownership/Others.antt =====
-- src/server/hrb/Ownership.cc and RedisKeys.cc: the calls of one user, and what another user has.
pub mod Calls
use hearty_rabbit.Prelude.{
  ℕ, ◌≡◌, ◌∙◌, refl, Bool, true, false, not, ◌&&◌, ◌||◌, ◌==◌, List, [], ◌∷◌, ◌++◌, Option, none,
  some, inl, inr, if◌then◌else◌, Bytes, codes, Avoids, length, ltb, is_some, is_empty, has,
  bytes_eq, bytes_eq-append, bytes_eq_refl, bytes_eq_sound, Bool-cases, Option-cases, arith,
}
use hearty_rabbit.RedisKeys.{
  blob_refs, blob_owners, collection, collection_list, blob_inode, public_blobs,
}
use hearty_rabbit.Escape.Hex.{HexCodec, to_hex}
use hearty_rabbit.BlobInode.{Json, BlobInode}
use hearty_rabbit.BlobInode.Record.{create_inode}
use hearty_rabbit.Ownership.Store.{
  Db, DbLaws, Command, key_of, sadd, srem, hset, hsetnx, hdel, rpush, lrem, lpop,
}
use hearty_rabbit.Ownership.Scripts.{
  Lua, Outcome, returned, raised, after, link_script, store_entry, move_script, move_filename,
  unlink_script, drop_link, forget_blob, trim_album, set_permission_script, set_permission_of,
  publish, set_cover_script, set_cover_of, album_of, rename_blob, update,
}
use hearty_rabbit.Ownership.Fields.{blob_owners_sadd, blob_owners_srem}
use hearty_rabbit.Ownership.Unlink.Trim.{trim-Relists}
use hearty_rabbit.Ownership.Invariant.{IsConsistent}
use hearty_rabbit.Ownership.Commands.{Call, run, link_inode, update_inode}

-- Two names without a colon differ before the colon that follows them.
names_apart :
    (u v x y : Bytes)
    → Avoids (codes ":") u
    → Avoids (codes ":") v
    → bytes_eq v u ≡ false
    → bytes_eq (v ++ b':' ∷ x) (u ++ b':' ∷ y) ≡ false
names_apart [] [] x y hu hv n = cc
names_apart [] (d ∷ v) x y hu (hd, hv) n = ground (arith, hd)
names_apart (c ∷ u) [] x y (hc, hu) hv n = ground (arith, hc)
names_apart (c ∷ u) (d ∷ v) x y (hc, hu) (hd, hv) n = ground (arith, n, names_apart u v x y hu hv)

module _ {ℓ} {S : Type ℓ} (db : Db S) (u : Bytes) where
  -- What a user has is the same in two states.
  pub record Same (s t : S) : Type 0 where
    pub album : (c b : Bytes) → db.hget t (collection u c) b ≡ db.hget s (collection u c) b
    pub refs : (b : Bytes) → db.smembers t (blob_refs u b) ≡ db.smembers s (blob_refs u b)
    pub owner :
        (b : Bytes) → has u (db.smembers t (blob_owners b)) ≡ has u (db.smembers s (blob_owners b))
    pub inode : (b : Bytes) → db.hget t (blob_inode u) b ≡ db.hget s (blob_inode u) b
    pub list : (c : Bytes) → db.hget t (collection_list u) c ≡ db.hget s (collection_list u) c
    pub has_refs : (b : Bytes) → db.exists t (blob_refs u b) ≡ db.exists s (blob_refs u b)
    pub has_blobs : (c : Bytes) → db.exists t (collection u c) ≡ db.exists s (collection u c)

  pub Same-refl : (s : S) → Same s s
  Same-refl s = record {
    album = λ c b. refl;
    refs = λ b. refl;
    owner = λ b. refl;
    inode = λ b. refl;
    list = λ c. refl;
    has_refs = λ b. refl;
    has_blobs = λ c. refl;
  }

  pub Same-trans : {s t v : S} → Same s t → Same t v → Same s v
  Same-trans p q = record {
    album = λ c b. q.album c b ∙ p.album c b;
    refs = λ b. q.refs b ∙ p.refs b;
    owner = λ b. q.owner b ∙ p.owner b;
    inode = λ b. q.inode b ∙ p.inode b;
    list = λ c. q.list c ∙ p.list c;
    has_refs = λ b. q.has_refs b ∙ p.has_refs b;
    has_blobs = λ c. q.has_blobs c ∙ p.has_blobs c;
  }

  -- A key that is none of the user's.
  pub record IsForeign (k : Bytes) : Type 0 where
    pub no_album : (c : Bytes) → bytes_eq k (collection u c) ≡ false
    pub no_refs : (b : Bytes) → bytes_eq k (blob_refs u b) ≡ false
    pub no_inode : bytes_eq k (blob_inode u) ≡ false
    pub no_list : bytes_eq k (collection_list u) ≡ false

  module _ (laws : DbLaws db) where
    -- A command on such a key that keeps the user's ownership.
    pub foreign-Same :
        (s : S) (w : Command)
        → IsForeign (key_of w)
        → ((b : Bytes)
            → has u (db.smembers (db.call s w) (blob_owners b))
              ≡ has u (db.smembers s (blob_owners b)))
        → Same s (db.call s w)
    foreign-Same s w f owner = record {
      album = λ c b. laws.hget_frame s w (collection u c) b (f.no_album c);
      refs = λ b. laws.smembers_frame s w (blob_refs u b) (f.no_refs b);
      owner = owner;
      inode = λ b. laws.hget_frame s w (blob_inode u) b f.no_inode;
      list = λ c. laws.hget_frame s w (collection_list u) c f.no_list;
      has_refs = λ b. laws.exists_frame s w (blob_refs u b) (f.no_refs b);
      has_blobs = λ c. laws.exists_frame s w (collection u c) (f.no_album c);
    }

    -- If the key holds no owners, either, that is all there is to it.
    pub other-Same :
        (s : S) (w : Command)
        → IsForeign (key_of w)
        → ((b : Bytes) → bytes_eq (key_of w) (blob_owners b) ≡ false)
        → Same s (db.call s w)
    other-Same s w f n =
        foreign-Same s w f (λ b. rw (laws.smembers_frame s w (blob_owners b) (n b)))

  module _ (v : Bytes) (hu : Avoids (codes ":") u) (hv : Avoids (codes ":") v)
      (n : bytes_eq v u ≡ false) where
    pub collection-IsForeign : (c : Bytes) → IsForeign (collection v c)
    unfolding collection blob_refs blob_inode collection_list
    collection-IsForeign c = record {
      no_album = λ d. names_apart u v c d hu hv n;
      no_refs = λ b. refl;
      no_inode = refl;
      no_list = refl;
    }

    pub blob_refs-IsForeign : (b : Bytes) → IsForeign (blob_refs v b)
    unfolding collection blob_refs blob_inode collection_list
    blob_refs-IsForeign b = record {
      no_album = λ d. refl;
      no_refs = λ e. names_apart u v b e hu hv n;
      no_inode = refl;
      no_list = refl;
    }

    pub blob_inode-IsForeign : IsForeign (blob_inode v)
    unfolding collection blob_refs blob_inode collection_list
    blob_inode-IsForeign = record {
      no_album = λ d. refl;
      no_refs = λ e. refl;
      no_inode = n;
      no_list = refl;
    }

    pub collection_list-IsForeign : IsForeign (collection_list v)
    unfolding collection blob_refs blob_inode collection_list
    collection_list-IsForeign = record {
      no_album = λ d. refl;
      no_refs = λ e. refl;
      no_inode = refl;
      no_list = n;
    }

  pub blob_owners-IsForeign : (b : Bytes) → IsForeign (blob_owners b)
  unfolding collection blob_refs blob_inode collection_list blob_owners
  blob_owners-IsForeign b = record {
    no_album = λ d. refl;
    no_refs = λ e. refl;
    no_inode = refl;
    no_list = refl;
  }

  pub public_blobs-IsForeign : IsForeign public_blobs
  unfolding collection blob_refs blob_inode collection_list public_blobs
  public_blobs-IsForeign = record {
    no_album = λ d. refl;
    no_refs = λ e. refl;
    no_inode = refl;
    no_list = refl;
  }

-- What is consistent stays so if it stays the same.
pub Same-IsConsistent {ℓ κ} :
    {S : Type ℓ} {J : Type κ} (db : Db S) (l : Lua J) (u : Bytes) (s t : S)
    → Same db u s t
    → IsConsistent db l u s
    → IsConsistent db l u t
Same-IsConsistent db l u s t same inv = record {
  linked = λ b c. rw (same.album c b, same.refs b) (inv.linked b c);
  owned = λ b. rw (same.owner b, same.has_refs b) (inv.owned b);
  stored = λ b. rw (same.inode b, same.has_refs b) (inv.stored b);
  listed = λ c. rw (same.list c, same.has_blobs c) (inv.listed c);
  covered = λ c text h.
      let (b, k, there) = inv.covered c text (rw (same.list c) at h) in
      (b, k, rw (same.album c b) there);
}
