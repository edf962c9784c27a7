-- ===== src/Ownership/Bounds.antt =====
-- src/server/hrb/Ownership.cc: how long the list of public blobs gets.
use hearty_rabbit.Prelude.{
  ◌≡◌, ◌∙◌, refl, ◌&&◌, List, [], ◌∷◌, Option, none, some, inl, inr, if◌then◌else◌, Bytes, is_some,
  Bool-cases, Option-cases, is_empty,
}
use hearty_rabbit.RedisKeys.{
  blob_refs, blob_owners, collection, collection_list, blob_inode, public_blobs,
}
use hearty_rabbit.Escape.Hex.{HexCodec, to_hex}
use hearty_rabbit.BlobInode.{Json}
use hearty_rabbit.BlobInode.Record.{create_inode}
use hearty_rabbit.Ownership.Store.{Db, DbLaws, sadd, srem, hset, without}
use hearty_rabbit.Ownership.Scripts.{
  Lua, after, link_script, store_entry, move_script, move_filename, unlink_script, drop_link,
  forget_blob, set_cover_script, set_cover_of, album_of, trim_album, rename_blob, update,
}
use hearty_rabbit.Ownership.Unlink.{still}
use hearty_rabbit.Ownership.Unlink.Trim.{trim-Relists}
use hearty_rabbit.Ownership.Public.{IsShortList, without-IsShortList}
use hearty_rabbit.Ownership.Public.Permitted.{set_permission-IsShortList}
use hearty_rabbit.Ownership.Commands.{Call, run, link_inode, update_inode}
use hearty_rabbit.Ownership.Albums.{run_all}

module _ {ℓ κ ι} {S : Type ℓ} {J : Type κ} {V : Type ι} (db : Db S) (laws : DbLaws db) (l : Lua J)
    (j : Json V) (h : HexCodec) (u : Bytes) where
  abbrev publics : S → List Bytes
  publics s = db.lrange s public_blobs

  link_publics :
      (s : S) (coll blob cover entry filename : Bytes)
      → publics (link_script db l u s coll blob cover entry filename) ≡ publics s
  unfolding link_script store_entry collection collection_list blob_refs blob_owners blob_inode
      public_blobs
  link_publics s coll blob cover entry filename = elim (Bool-cases (is_empty entry)) [
    | inl y ↦ simp (y, laws.lrange_frame)
    | inr n ↦ simp (n, laws.lrange_frame)
  ]

  drop_publics :
      (s : S) (coll blob : Bytes)
      → publics (drop_link db l u s coll blob)
        ≡ (if still db laws l u s coll blob then publics s else without (l.pack u blob) (publics s))
  unfolding drop_link forget_blob collection collection_list blob_refs blob_owners blob_inode
      public_blobs
  drop_publics s coll blob = elim (Bool-cases (still db laws l u s coll blob)) [
    | inl y ↦ simp (y, laws.lrange_frame)
    | inr n ↦ simp (n, laws.lrange_frame, laws.lrange_lrem)
  ]

  trim_publics :
      (s : S) (coll blob : Bytes) → publics (after (trim_album db l u s coll blob)) ≡ publics s
  unfolding collection_list public_blobs
  trim_publics s coll blob = elim (trim-Relists db laws l u s coll blob) [
    | inl same ↦ rw same
    | inr (w, k, called) ↦ rw called (laws.lrange_frame s w public_blobs (rw k))
  ]

  move_publics :
      (s : S) (src dest blob cover : Bytes) (o : Option Bytes)
      → publics (after (move_filename db l u s src dest blob cover o)) ≡ publics s
  unfolding move_filename collection collection_list public_blobs
  move_publics s src dest blob cover none = refl
  move_publics s src dest blob cover (some f) = simp laws.lrange_frame

  cover_publics :
      (s : S) (coll hex blob : Bytes)
      → publics (after (set_cover_script db l u s coll hex blob)) ≡ publics s
  unfolding set_cover_script set_cover_of collection collection_list public_blobs
  cover_publics s coll hex blob =
      elim (Bool-cases (
        is_some (db.hget s (collection_list u) coll)
        && is_some (db.hget s (collection u coll) blob))) [
          | inr n ↦ rw n
          | inl y ↦
              rw y (elim (Option-cases (album_of db l u (db.hget s (collection_list u) coll))) [
                | inl n ↦ rw n
                | inr (a, e) ↦ rw e (simp laws.lrange_frame)
              ])
        ]

  short : {xs ys : List Bytes} → xs ≡ ys → IsShortList ys → IsShortList xs
  short e k = rw e k

  run-IsShortList :
      (c : Call) (s : S)
      → IsShortList (publics s)
      → IsShortList (publics (after (run db l j h u s c)))
  unfolding run link_inode update_inode move_script unlink_script rename_blob update collection
      collection_list blob_refs blob_owners blob_inode public_blobs
  run-IsShortList (Call.link_blob coll blob inode) s k =
      elim (Option-cases (create_inode j inode)) [
        | inl n ↦ rw n k
        | inr (entry, e) ↦ rw e (short (link_publics s coll blob _ entry _) k)
      ]
  run-IsShortList (Call.move_blob src dest blob) s k =
      let s2 = db.call (db.call s (sadd (blob_refs u blob) dest)) (srem (blob_refs u blob) src) in
      let same : publics s2 ≡ publics s = simp laws.lrange_frame in
      short
        (move_publics s2 src dest blob (to_hex h blob) (db.hget s2 (collection u src) blob) ∙ same)
        k
  run-IsShortList (Call.unlink_blob coll blob) s k =
      short (trim_publics (drop_link db l u s coll blob) coll blob ∙ drop_publics s coll blob)
        (elim (Bool-cases (still db laws l u s coll blob)) [
          | inl y ↦ rw y k
          | inr n ↦ rw n (without-IsShortList (l.pack u blob) (publics s) k)
        ])
  run-IsShortList (Call.set_permission blob perm) s k =
      set_permission-IsShortList db laws l u s blob (perm ∷ []) k
  run-IsShortList (Call.set_cover coll blob) s k =
      short (cover_publics s coll (to_hex h blob) blob) k
  run-IsShortList (Call.rename_blob coll blob filename) s k =
      short (laws.lrange_frame s (hset (collection u coll) blob filename) public_blobs refl) k
  run-IsShortList (Call.update_blob blob inode) s k = elim (Option-cases (create_inode j inode)) [
    | inl n ↦ rw n k
    | inr (entry, e) ↦
        rw e (short (laws.lrange_frame s (hset (blob_inode u) blob entry) public_blobs refl) k)
  ]

  -- The list of public blobs never grows past a hundred entries, and never has a blob twice: if that
  -- is so, it stays so over any calls of the members of the class.
  pub run_all-IsShortList :
      (cs : List Call) (s : S)
      → IsShortList (publics s)
      → IsShortList (publics (run_all db laws l j h u s cs))
  run_all-IsShortList [] s k = k
  run_all-IsShortList (c ∷ cs) s k =
      run_all-IsShortList cs (after (run db l j h u s c)) (run-IsShortList c s k)
