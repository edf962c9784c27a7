-- ===== src/Ownership/Reach.antt =====
-- src/server/hrb/Ownership.cc: what holds of a user's keys after any calls that keep to their albums.
use hearty_rabbit.Prelude.{
  Avoids, codes, false, ℕ, ◌≡◌, refl, true, [], ◌∷◌, inl, inr, Bytes, IsBytes, is_some, bytes_eq,
  bytes_eq_refl, bytes_eq_sound, Bool-cases, Option-cases, arith,
}
use hearty_rabbit.RedisKeys.{blob_refs, blob_owners, collection, collection_list, blob_inode}
use hearty_rabbit.Escape.Hex.{HexCodec, to_hex}
use hearty_rabbit.BlobInode.{Json, BlobInode}
use hearty_rabbit.BlobInode.Record.{create_inode, create_inode_full}
use hearty_rabbit.Ownership.Store.{Db, DbLaws, hset}
use hearty_rabbit.Ownership.Scripts.{Lua, LuaLaws, after, tohex, rename_blob, update}
use hearty_rabbit.Ownership.Fields.{hget_collection_hset, exists_field, collection-eq}
use hearty_rabbit.Ownership.Invariant.{IsConsistent}
use hearty_rabbit.Ownership.Link.Invariant.{link-IsConsistent}
use hearty_rabbit.Ownership.Unlink.Invariant.{unlink-IsConsistent}
use hearty_rabbit.Ownership.Cover.{set_cover-IsConsistent}
use hearty_rabbit.Ownership.Public.Permitted.{set_permission-IsConsistent}
use hearty_rabbit.Ownership.Others.{Same-IsConsistent}
use hearty_rabbit.Ownership.Others.Calls.{run-Same}
use hearty_rabbit.Ownership.Commands.{Call, run, default_name, link_inode, update_inode}

-- Boost writes a byte in hexadecimal as the scripts do.
abbrev pub WritesHex : HexCodec → Type 0
WritesHex h = (s : Bytes) → IsBytes s → h.hex_lower s ≡ tohex s

module _ {ℓ κ ι} {S : Type ℓ} {J : Type κ} {V : Type ι} (db : Db S) (l : Lua J) (j : Json V)
    (h : HexCodec) (u : Bytes) where
  -- A call that names what is there: a blob is renamed in an album that has it, and an inode changed
  -- that is kept. `move_blob` is not among them: it may leave an empty album in the list.
  pub data Step (s : S) : S → Type ℓ where
    link :
        (coll blob : Bytes) (inode : BlobInode)
        → IsBytes blob
        → Step s (after (run db l j h u s (Call.link_blob coll blob inode)))
    unlink : (coll blob : Bytes) → Step s (after (run db l j h u s (Call.unlink_blob coll blob)))
    permit :
        (blob : Bytes) (perm : ℕ)
        → Step s (after (run db l j h u s (Call.set_permission blob perm)))
    cover :
        (coll blob : Bytes)
        → IsBytes blob
        → Step s (after (run db l j h u s (Call.set_cover coll blob)))
    rename :
        (coll blob filename : Bytes)
        → is_some (db.hget s (collection u coll) blob) ≡ true
        → Step s (after (run db l j h u s (Call.rename_blob coll blob filename)))
    change :
        (blob : Bytes) (inode : BlobInode)
        → is_some (db.hget s (blob_inode u) blob) ≡ true
        → Step s (after (run db l j h u s (Call.update_blob blob inode)))
    -- Anything that another user calls.
    others :
        (v : Bytes) (c : Call)
        → Avoids (codes ":") v
        → bytes_eq v u ≡ false
        → Step s (after (run db l j h v s c))

  pub data Reach (s : S) : S → Type ℓ where
    here : Reach s s
    next : {t v : S} → Reach s t → Step t v → Reach s v

  module _ (laws : DbLaws db) (lua : LuaLaws l) (hex : WritesHex h)
      (named : Avoids (codes ":") u) where
    album_exists :
        (s : S) (coll blob filename : Bytes)
        → is_some (db.hget s (collection u coll) blob) ≡ true
        → (c : Bytes)
        → db.exists (db.call s (hset (collection u coll) blob filename)) (collection u c)
          ≡ db.exists s (collection u c)
    album_exists s coll blob filename there c = elim (Bool-cases (bytes_eq coll c)) [
      | inr n ↦
          laws.exists_frame s (hset (collection u coll) blob filename) (collection u c)
            (rw (collection-eq u coll c) n)
      | inl y ↦
          let t = db.call s (hset (collection u coll) blob filename) in
          let now : db.exists t (collection u coll) ≡ true =
            exists_field db laws u t (collection u coll) blob (unfold collection in refl) (
              rw (
                hget_collection_hset db laws u s coll blob filename coll blob,
                bytes_eq_refl coll,
                bytes_eq_refl blob,
              )) in
          let before =
            exists_field db laws u s (collection u coll) blob (unfold collection in refl) there in
          rw (← bytes_eq_sound coll c y, now, before)
    ]

    renamed :
        (s : S) (coll blob filename : Bytes)
        → is_some (db.hget s (collection u coll) blob) ≡ true
        → IsConsistent db l u s
        → IsConsistent db l u (rename_blob db l u s coll blob filename)
    unfolding rename_blob blob_refs blob_owners collection collection_list blob_inode
    renamed s coll blob filename there inv =
        let w = hset (collection u coll) blob filename in
        let album = hget_collection_hset db laws u s coll blob filename in
        let kept : (c b : Bytes)
            → is_some (db.hget (db.call s w) (collection u c) b)
              ≡ is_some (db.hget s (collection u c) b) =
          λ c b. ground (arith, album c b, bytes_eq_sound coll c, bytes_eq_sound blob b, there) in
        record {
          linked =
              λ b c. rw (kept c b, laws.smembers_frame s w (blob_refs u b) refl) (inv.linked b c);
          owned = λ b. simp (laws.smembers_frame, laws.exists_frame, inv.owned b);
          stored = λ b. simp (laws.hget_frame, laws.exists_frame, inv.stored b);
          listed = λ c.
              rw
                (
                  laws.hget_frame s w (collection_list u) c refl,
                  album_exists s coll blob filename there c,
                )
                (inv.listed c);
          covered = λ c text e.
              let (b, k, p) =
                inv.covered c text (rw (laws.hget_frame s w (collection_list u) c refl) at e) in
              (b, k, rw (kept c b) p);
        }

    changed :
        (s : S) (blob entry : Bytes)
        → is_some (db.hget s (blob_inode u) blob) ≡ true
        → IsConsistent db l u s
        → IsConsistent db l u (update db l u s blob entry)
    unfolding update blob_refs blob_owners collection collection_list blob_inode
    changed s blob entry there inv =
        let w = hset (blob_inode u) blob entry in
        record {
          linked = λ b c. simp (laws.hget_frame, laws.smembers_frame, inv.linked b c);
          owned = λ b. simp (laws.smembers_frame, laws.exists_frame, inv.owned b);
          stored = λ b. rw (laws.exists_frame s w (blob_refs u b) refl) (
              ground (
                arith,
                laws.hget_hset s (blob_inode u) blob entry b refl,
                inv.stored b,
                there,
                bytes_eq_sound blob b,
              ));
          listed = λ c. simp (laws.hget_frame, laws.exists_frame, inv.listed c);
          covered = λ c text e.
              let (b, k, p) =
                inv.covered c text (rw (laws.hget_frame s w (collection_list u) c refl) at e) in
              (b, k, rw (laws.hget_frame s w (collection u c) b refl) p);
        }

    Step-IsConsistent : {s t : S} → Step s t → IsConsistent db l u s → IsConsistent db l u t
    unfolding run link_inode update_inode to_hex
    Step-IsConsistent {s} (link coll blob inode bytes) inv =
        elim (Option-cases (create_inode j inode)) [
          | inl n ↦ rw n inv
          | inr (entry, k) ↦
              rw (k, hex blob bytes)
                (link-IsConsistent db l u laws lua s coll blob entry (default_name inode.filename)
                  (create_inode_full j inode entry k) inv)
        ]
    Step-IsConsistent {s} (unlink coll blob) inv =
        (unlink-IsConsistent db laws l u s coll blob inv lua).1
    Step-IsConsistent {s} (permit blob perm) inv =
        set_permission-IsConsistent db laws l u s blob (perm ∷ []) inv
    Step-IsConsistent {s} (cover coll blob bytes) inv =
        rw (hex blob bytes) (set_cover-IsConsistent db laws l u s coll blob inv lua).0.1
    Step-IsConsistent {s} (rename coll blob filename there) inv =
        renamed s coll blob filename there inv
    Step-IsConsistent {s} (change blob inode there) inv =
        elim (Option-cases (create_inode j inode)) [
          | inl n ↦ rw n inv
          | inr (entry, k) ↦ rw k (changed s blob entry there inv)
        ]
    Step-IsConsistent {s} (others v c hv apart) inv =
        Same-IsConsistent db l u s (after (run db l j h v s c))
          (run-Same db laws l j h u v named hv apart s c) inv

    pub Reach-IsConsistent : {s t : S} → Reach s t → IsConsistent db l u s → IsConsistent db l u t
    Reach-IsConsistent here inv = inv
    Reach-IsConsistent (next r st) inv = Step-IsConsistent st (Reach-IsConsistent r inv)
