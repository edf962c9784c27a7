-- ===== src/Ownership/Albums.antt =====
-- What class Ownership promises (src/server/hrb/Ownership.hh): albums in which blobs have filenames.
-- Each member of the class acts on redis as it does on these.
use hearty_rabbit.Prelude.{
  ◌≡◌, ◌∙◌, refl, ap, fun_ext, ◌&&◌, List, [], ◌∷◌, Option, none, some, if◌then◌else◌, Bytes,
  bytes_eq, is_some, Bool-cases, Option-cases, inl, inr,
}
use hearty_rabbit.RedisKeys.{blob_refs, collection, collection_list, blob_inode}
use hearty_rabbit.Escape.Hex.{HexCodec, to_hex}
use hearty_rabbit.BlobInode.{Json}
use hearty_rabbit.BlobInode.Record.{create_inode, create_inode_full}
use hearty_rabbit.Ownership.Store.{Db, DbLaws, sadd, srem}
use hearty_rabbit.Ownership.Scripts.{
  Lua, after, move_script, move_filename, unlink_script, trim_album, album_of, drop_link,
  set_cover_script, set_cover_of, rename_blob, update,
}
use hearty_rabbit.Ownership.Fields.{hget_collection_hset, hget_collection_hdel}
use hearty_rabbit.Ownership.Link.{link_album}
use hearty_rabbit.Ownership.Unlink.{drop_album}
use hearty_rabbit.Ownership.Unlink.Trim.{trim-Relists}
use hearty_rabbit.Ownership.Public.Permitted.{permit_album}
use hearty_rabbit.Ownership.Commands.{Call, run, default_name, link_inode, update_inode}

-- The filename of a blob in an album, if it is there.
abbrev pub Albums : Type 0
Albums = Bytes → Bytes → Option Bytes

abbrev pub put : Bytes → Bytes → Bytes → Albums → Albums
put coll blob filename a =
    λ d e. if bytes_eq coll d && bytes_eq blob e then some filename else a d e

abbrev pub take_out : Bytes → Bytes → Albums → Albums
take_out coll blob a = λ d e. if bytes_eq coll d && bytes_eq blob e then none else a d e

abbrev pub move_as : Bytes → Bytes → Bytes → Option Bytes → Albums → Albums
move_as src dest blob none a = a
move_as src dest blob (some filename) a = take_out src blob (put dest blob filename a)

abbrev pub put_if : Option Bytes → Bytes → Bytes → Bytes → Albums → Albums
put_if none coll blob filename a = a
put_if (some entry) coll blob filename a = put coll blob filename a

module _ {ℓ κ ι} {S : Type ℓ} {J : Type κ} {V : Type ι} (db : Db S) (laws : DbLaws db) (l : Lua J)
    (j : Json V) (h : HexCodec) (u : Bytes) where
  abbrev pub view : S → Albums
  view s = λ c b. db.hget s (collection u c) b

  -- What a member of the class does to the albums.
  abbrev pub spec : Call → Albums → Albums
  spec (Call.link_blob coll blob inode) a =
      put_if (create_inode j inode) coll blob (default_name inode.filename) a
  spec (Call.move_blob src dest blob) a = move_as src dest blob (a src blob) a
  spec (Call.unlink_blob coll blob) a = take_out coll blob a
  spec (Call.rename_blob coll blob filename) a = put coll blob filename a
  spec _ a = a

  -- The end of `unlink_command` does not touch what is in the albums.
  trim_keeps :
      (s : S) (coll blob d e : Bytes)
      → view (after (trim_album db l u s coll blob)) d e ≡ view s d e
  unfolding collection collection_list
  trim_keeps s coll blob d e = elim (trim-Relists db laws l u s coll blob) [
    | inl same ↦ rw same
    | inr (w, k, called) ↦ rw called (laws.hget_frame s w (collection u d) e (rw k))
  ]

  move_named :
      (s : S) (src dest blob cover : Bytes) (o : Option Bytes) (d e : Bytes)
      → view (after (move_filename db l u s src dest blob cover o)) d e
        ≡ move_as src dest blob o (view s) d e
  unfolding move_filename collection collection_list
  move_named s src dest blob cover none d e = refl
  move_named s src dest blob cover (some f) d e =
      simp (laws.hget_frame, hget_collection_hset db laws u, hget_collection_hdel db laws u)

  cover_album :
      (s : S) (coll hex blob d e : Bytes)
      → view (after (set_cover_script db l u s coll hex blob)) d e ≡ view s d e
  unfolding set_cover_script set_cover_of collection collection_list
  cover_album s coll hex blob d e =
      elim (Bool-cases (
        is_some (db.hget s (collection_list u) coll)
        && is_some (db.hget s (collection u coll) blob))) [
          | inr n ↦ rw n
          | inl y ↦
              rw y (elim (Option-cases (album_of db l u (db.hget s (collection_list u) coll))) [
                | inl n ↦ rw n
                | inr (a, e) ↦ rw e (simp laws.hget_frame)
              ])
        ]

  -- The set of the blob's albums is changed first, and is no album.
  refs_view :
      (s : S) (src dest blob : Bytes)
      → view (db.call (db.call s (sadd (blob_refs u blob) dest)) (srem (blob_refs u blob) src))
        ≡ view s
  unfolding collection blob_refs
  refs_view s src dest blob = fun_ext (λ d. fun_ext (λ e. simp laws.hget_frame))

  -- Every member of the class does to the albums in redis what it is specified to do, whether or not
  -- it raises an error.
  refines :
      (c : Call) (s : S) (d e : Bytes) → view (after (run db l j h u s c)) d e ≡ spec c (view s) d e
  unfolding run link_inode update_inode move_script unlink_script rename_blob update
  refines (Call.link_blob coll blob inode) s d e = elim (Option-cases (create_inode j inode)) [
    | inl n ↦ rw n
    | inr (entry, k) ↦ rw k (
        link_album db laws l u s coll blob (to_hex h blob) entry (default_name inode.filename)
          (create_inode_full j inode entry k) d e)
  ]
  refines (Call.move_blob src dest blob) s d e =
      let s2 = db.call (db.call s (sadd (blob_refs u blob) dest)) (srem (blob_refs u blob) src) in
      move_named s2 src dest blob (to_hex h blob) (view s2 src blob) d e
      ∙ ap (λ a. move_as src dest blob (a src blob) a d e) (refs_view s src dest blob)
  refines (Call.unlink_blob coll blob) s d e =
      trim_keeps (drop_link db l u s coll blob) coll blob d e
      ∙ drop_album db laws l u s coll blob d e
  refines (Call.set_permission blob perm) s d e = permit_album db laws l u s blob (perm ∷ []) d e
  refines (Call.set_cover coll blob) s d e = cover_album s coll (to_hex h blob) blob d e
  refines (Call.rename_blob coll blob filename) s d e =
      hget_collection_hset db laws u s coll blob filename d e
  refines (Call.update_blob blob inode) s d e = elim (Option-cases (create_inode j inode)) [
    | inl n ↦ rw n
    | inr (entry, k) ↦ rw k (unfold collection blob_inode in simp laws.hget_frame)
  ]

  -- One member after the other.
  abbrev pub run_all : S → List Call → S
  run_all s [] = s
  run_all s (c ∷ cs) = run_all (after (run db l j h u s c)) cs

  abbrev pub spec_all : Albums → List Call → Albums
  spec_all a [] = a
  spec_all a (c ∷ cs) = spec_all (spec c a) cs

  -- After any calls of the members of the class, each a script of redis or a single command, the
  -- albums in redis are those that the calls specify: `link_blob` and `rename_blob` put a blob into an
  -- album under a name, `unlink_blob` takes it out, `move_blob` takes it from one album and puts it
  -- into another under the name it had, if it was there, and the others leave the albums alone. It
  -- holds whether or not a call raises an error.
  pub run_all-spec_all : (cs : List Call) (s : S) → view (run_all s cs) ≡ spec_all (view s) cs
  run_all-spec_all [] s = refl
  run_all-spec_all (c ∷ cs) s =
      run_all-spec_all cs (after (run db l j h u s c))
      ∙ ap (λ a. spec_all a cs) (fun_ext (λ d. fun_ext (λ e. refines c s d e)))
