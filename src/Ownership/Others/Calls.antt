-- ===== src/Ownership/Others/Calls.antt =====
-- src/server/hrb/Ownership.cc: no call of one user changes what another user has.
use hearty_rabbit.Prelude.{
  ◌≡◌, refl, false, ◌&&◌, [], ◌∷◌, ◌++◌, Option, none, some, inl, inr, Bytes, codes, Avoids, drop,
  length, ltb, is_some, is_empty, bytes_eq, Bool-cases, Option-cases,
}
use hearty_rabbit.RedisKeys.{
  blob_refs, blob_owners, collection, collection_list, blob_inode, public_blobs,
}
use hearty_rabbit.Escape.Hex.{HexCodec, to_hex}
use hearty_rabbit.BlobInode.{Json}
use hearty_rabbit.BlobInode.Record.{create_inode}
use hearty_rabbit.Ownership.Store.{
  Db, DbLaws, Command, key_of, sadd, srem, hset, hsetnx, hdel, rpush, lrem, lpop,
}
use hearty_rabbit.Ownership.Scripts.{
  Lua, after, link_script, store_entry, move_script, move_filename, unlink_script, drop_link,
  forget_blob, trim_album, set_permission_script, set_permission_of, publish, set_cover_script,
  set_cover_of, album_of, rename_blob, update,
}
use hearty_rabbit.Ownership.Fields.{blob_owners_sadd, blob_owners_srem}
use hearty_rabbit.Ownership.Unlink.Trim.{trim-Relists}
use hearty_rabbit.Ownership.Commands.{Call, run, default_name, link_inode, update_inode}
use hearty_rabbit.Ownership.Others.{
  Same, Same-refl, Same-trans, foreign-Same, other-Same, collection-IsForeign, blob_refs-IsForeign,
  blob_inode-IsForeign, collection_list-IsForeign, blob_owners-IsForeign, public_blobs-IsForeign,
}

module _ {ℓ κ ι} {S : Type ℓ} {J : Type κ} {V : Type ι} (db : Db S) (laws : DbLaws db) (l : Lua J)
    (j : Json V) (h : HexCodec) (u v : Bytes) (hu : Avoids (codes ":") u)
    (hv : Avoids (codes ":") v) (n : bytes_eq v u ≡ false) where
  on_album :
      (s : S) (w : Command) (c : Bytes) → key_of w ≡ collection v c → Same db u s (db.call s w)
  unfolding collection blob_owners
  on_album s w c e =
      other-Same db u laws s w (rw e (collection-IsForeign db u v hu hv n c)) (λ b. rw e)

  on_refs : (s : S) (w : Command) (b : Bytes) → key_of w ≡ blob_refs v b → Same db u s (db.call s w)
  unfolding blob_refs blob_owners
  on_refs s w b e =
      other-Same db u laws s w (rw e (blob_refs-IsForeign db u v hu hv n b)) (λ d. rw e)

  on_inode : (s : S) (w : Command) → key_of w ≡ blob_inode v → Same db u s (db.call s w)
  unfolding blob_inode blob_owners
  on_inode s w e = other-Same db u laws s w (rw e (blob_inode-IsForeign db u v hu hv n)) (λ d. rw e)

  on_list : (s : S) (w : Command) → key_of w ≡ collection_list v → Same db u s (db.call s w)
  unfolding collection_list blob_owners
  on_list s w e =
      other-Same db u laws s w (rw e (collection_list-IsForeign db u v hu hv n)) (λ d. rw e)

  on_publics : (s : S) (w : Command) → key_of w ≡ public_blobs → Same db u s (db.call s w)
  unfolding public_blobs blob_owners
  on_publics s w e = other-Same db u laws s w (rw e (public_blobs-IsForeign db u)) (λ d. rw e)

  -- Another owner comes or goes.
  on_owner : (s : S) (b : Bytes) → Same db u s (db.call s (sadd (blob_owners b) v))
  on_owner s b =
      foreign-Same db u laws s (sadd (blob_owners b) v) (blob_owners-IsForeign db u b) (λ e.
        rw (blob_owners_sadd db laws u s b v e u, n)
          (elim (Bool-cases (bytes_eq b e)) [ inl y ↦ rw y | inr k ↦ rw k ]))

  off_owner : (s : S) (b : Bytes) → Same db u s (db.call s (srem (blob_owners b) v))
  off_owner s b =
      foreign-Same db u laws s (srem (blob_owners b) v) (blob_owners-IsForeign db u b) (λ e.
        rw (blob_owners_srem db laws u s b v e u, n)
          (elim (Bool-cases (bytes_eq b e)) [ inl y ↦ rw y | inr k ↦ rw k ]))

  chain : {s t w : S} → Same db u s t → Same db u t w → Same db u s w
  chain p q = Same-trans db u p q

  store-Same : (s : S) (blob entry : Bytes) → Same db u s (store_entry db l v s blob entry)
  unfolding store_entry
  store-Same s blob entry = elim (Bool-cases (is_empty entry)) [
    | inl y ↦ rw y (Same-refl db u s)
    | inr k ↦ rw k (on_inode s (hsetnx (blob_inode v) blob entry) refl)
  ]

  link-Same :
      (s : S) (coll blob cover entry filename : Bytes)
      → Same db u s (link_script db l v s coll blob cover entry filename)
  unfolding link_script
  link-Same s coll blob cover entry filename =
      let s1 = db.call s (sadd (blob_refs v blob) coll) in
      let s2 = db.call s1 (sadd (blob_owners blob) v) in
      let s3 = store_entry db l v s2 blob entry in
      let s4 = db.call s3 (hset (collection v coll) blob filename) in
      chain (on_refs s (sadd (blob_refs v blob) coll) blob refl) (
        chain (on_owner s1 blob) (
          chain (store-Same s2 blob entry) (
            chain (on_album s3 (hset (collection v coll) blob filename) coll refl)
              (on_list s4 (hsetnx (collection_list v) coll (l.encode (l.cover_only cover))) refl))))

  named-Same :
      (s : S) (src dest blob cover : Bytes) (o : Option Bytes)
      → Same db u s (after (move_filename db l v s src dest blob cover o))
  unfolding move_filename
  named-Same s src dest blob cover none = Same-refl db u s
  named-Same s src dest blob cover (some filename) =
      let s1 = db.call s (hset (collection v dest) blob filename) in
      let s2 = db.call s1 (hdel (collection v src) blob) in
      chain (on_album s (hset (collection v dest) blob filename) dest refl) (
        chain (on_album s1 (hdel (collection v src) blob) src refl)
          (on_list s2 (hsetnx (collection_list v) dest (l.encode (l.cover_only cover))) refl))

  move-Same :
      (s : S) (src dest blob cover : Bytes)
      → Same db u s (after (move_script db l v s src dest blob cover))
  unfolding move_script
  move-Same s src dest blob cover =
      let s1 = db.call s (sadd (blob_refs v blob) dest) in
      let s2 = db.call s1 (srem (blob_refs v blob) src) in
      chain (on_refs s (sadd (blob_refs v blob) dest) blob refl) (
        chain (on_refs s1 (srem (blob_refs v blob) src) blob refl)
          (named-Same s2 src dest blob cover (db.hget s2 (collection v src) blob)))

  forget-Same : (s : S) (blob : Bytes) → Same db u s (forget_blob db l v s blob)
  unfolding forget_blob
  forget-Same s blob =
      let s1 = db.call s (srem (blob_owners blob) v) in
      let s2 = db.call s1 (hdel (blob_inode v) blob) in
      chain (off_owner s blob) (
        chain (on_inode s1 (hdel (blob_inode v) blob) refl)
          (on_publics s2 (lrem public_blobs (l.pack v blob)) refl))

  drop-Same : (s : S) (coll blob : Bytes) → Same db u s (drop_link db l v s coll blob)
  unfolding drop_link
  drop-Same s coll blob =
      let s1 = db.call s (srem (blob_refs v blob) coll) in
      let first = on_refs s (srem (blob_refs v blob) coll) blob refl in
      elim (Bool-cases (db.exists s1 (blob_refs v blob))) [
        | inl y ↦
            rw (drop_link, y) (chain first (on_album s1 (hdel (collection v coll) blob) coll refl))
        | inr k ↦
            rw (drop_link, k)
              (chain first (
                chain (forget-Same s1 blob) (
                  on_album (forget_blob db l v s1 blob) (hdel (collection v coll) blob) coll refl)))
      ]

  trim-Same : (s : S) (coll blob : Bytes) → Same db u s (after (trim_album db l v s coll blob))
  trim-Same s coll blob = elim (trim-Relists db laws l v s coll blob) [
    | inl same ↦ rw same (Same-refl db u s)
    | inr (w, k, called) ↦ rw called (on_list s w k)
  ]

  publish-Same : (s : S) (packed : Bytes) → Same db u s (publish db l v s packed)
  unfolding publish
  publish-Same s packed =
      let s1 = db.call s (lrem public_blobs packed) in
      let s2 = db.call s1 (rpush public_blobs packed) in
      let both =
        chain (on_publics s (lrem public_blobs packed) refl)
          (on_publics s1 (rpush public_blobs packed) refl) in
      elim (Bool-cases (ltb 100 (length (db.lrange s2 public_blobs)))) [
        | inl y ↦ rw y (chain both (on_publics s2 (lpop public_blobs) refl))
        | inr k ↦ rw k both
      ]

  permit-Same :
      (s : S) (blob perm : Bytes) (o : Option Bytes)
      → Same db u s (after (set_permission_of db l v s blob perm o))
  unfolding set_permission_of
  permit-Same s blob perm none = Same-refl db u s
  permit-Same s blob perm (some original) =
      let w = hset (blob_inode v) blob (perm ++ drop 1 original) in
      elim (Bool-cases (bytes_eq perm (codes "*"))) [
        | inl y ↦ rw y (chain (on_inode s w refl) (publish-Same (db.call s w) (l.pack v blob)))
        | inr k ↦ rw k (
            chain (on_inode s w refl)
              (on_publics (db.call s w) (lrem public_blobs (l.pack v blob)) refl))
      ]

  cover_of-Same :
      (s : S) (coll hex : Bytes) (o : Option J)
      → Same db u s (after (set_cover_of db l v s coll hex o))
  unfolding set_cover_of
  cover_of-Same s coll hex none = Same-refl db u s
  cover_of-Same s coll hex (some a) =
      on_list s (hset (collection_list v) coll (l.encode (l.with_cover a hex))) refl

  cover-Same :
      (s : S) (coll hex blob : Bytes)
      → Same db u s (after (set_cover_script db l v s coll hex blob))
  unfolding set_cover_script
  cover-Same s coll hex blob =
      elim (Bool-cases (
        is_some (db.hget s (collection_list v) coll)
        && is_some (db.hget s (collection v coll) blob))) [
          | inr k ↦ rw k (Same-refl db u s)
          | inl y ↦
              rw y (cover_of-Same s coll hex (album_of db l v (db.hget s (collection_list v) coll)))
        ]

  -- Whatever a member of the class is called with for one user, another user's albums, references,
  -- inodes, ownership and list of albums stay as they are, if neither name has a colon.
  pub run-Same : (s : S) (c : Call) → Same db u s (after (run db l j h v s c))
  unfolding run link_inode update_inode unlink_script set_permission_script rename_blob update
  run-Same s (Call.link_blob coll blob inode) = elim (Option-cases (create_inode j inode)) [
    | inl k ↦ rw k (Same-refl db u s)
    | inr (entry, e) ↦
        rw e (link-Same s coll blob (to_hex h blob) entry (default_name inode.filename))
  ]
  run-Same s (Call.move_blob src dest blob) = move-Same s src dest blob (to_hex h blob)
  run-Same s (Call.unlink_blob coll blob) =
      chain (drop-Same s coll blob) (trim-Same (drop_link db l v s coll blob) coll blob)
  run-Same s (Call.set_permission blob perm) =
      permit-Same s blob (perm ∷ []) (db.hget s (blob_inode v) blob)
  run-Same s (Call.set_cover coll blob) = cover-Same s coll (to_hex h blob) blob
  run-Same s (Call.rename_blob coll blob filename) =
      on_album s (hset (collection v coll) blob filename) coll refl
  run-Same s (Call.update_blob blob inode) = elim (Option-cases (create_inode j inode)) [
    | inl k ↦ rw k (Same-refl db u s)
    | inr (entry, e) ↦ rw e (on_inode s (hset (blob_inode v) blob entry) refl)
  ]
