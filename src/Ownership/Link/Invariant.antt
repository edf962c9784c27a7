-- ===== src/Ownership/Link/Invariant.antt =====
-- `link_command` of src/server/hrb/Ownership.cc keeps what a user has consistent.
use hearty_rabbit.Prelude.{
  ◌≡◌, ◌∙◌, false, ◌&&◌, some, if◌then◌else◌, Bytes, is_empty, bytes_eq, bytes_eq_refl,
  bytes_eq_sound, Bool-cases, Option-cases, inl, inr, arith,
}
use hearty_rabbit.RedisKeys.{collection, collection_list}
use hearty_rabbit.Ownership.Store.{Db, DbLaws}
use hearty_rabbit.Ownership.Scripts.{Lua, LuaLaws, tohex, link_script}
use hearty_rabbit.Ownership.Invariant.{IsCovered, IsConsistent}
use hearty_rabbit.Ownership.Link.{
  link_album, link_refs, link_owners, link_inode, link_list, link_exists_refs, link_exists_album,
}

module _ {ℓ κ} {S : Type ℓ} {J : Type κ} (db : Db S) (l : Lua J) (u : Bytes) where
  module _ (laws : DbLaws db) (lua : LuaLaws l) (s : S) (coll blob entry filename : Bytes)
      (full : is_empty entry ≡ false) (inv : IsConsistent db l u s) where
    -- The script's `cover` is the blob in hexadecimal.
    abbrev after_link : S
    after_link = link_script db l u s coll blob (tohex blob) entry filename

    album :
        (d e : Bytes)
        → db.hget after_link (collection u d) e ≡ (
            if bytes_eq coll d && bytes_eq blob e
            then some filename
            else db.hget s (collection u d) e)
    album = link_album db laws l u s coll blob (tohex blob) entry filename full

    link-IsCovered :
        (c text : Bytes)
        → db.hget after_link (collection_list u) c ≡ some text
        → IsCovered db l u after_link c text
    link-IsCovered c text h =
        let list = link_list db laws l u s coll blob (tohex blob) entry filename full c in
        elim (Bool-cases (bytes_eq coll c)) [
          | inr n ↦
              let (b, e, p) = inv.covered c text (rw (list, n) at h) in (b, e, rw (album c b, n) p)
          | inl y ↦ elim (Option-cases (db.hget s (collection_list u) coll)) [
            | inl none_yet ↦
                let e : text ≡ l.encode (l.cover_only (tohex blob)) =
                  let e' : some (l.encode (l.cover_only (tohex blob))) ≡ some text =
                    rw (list, y, none_yet) at h in
                  cc in
                (
                  blob,
                  rw e (lua.cover_of-cover_only (tohex blob)),
                  rw (album c blob, y, bytes_eq_refl blob),
                )
            | inr (t, before) ↦
                let e : some t ≡ some text = rw (list, y, before) at h in
                let (b, e, p) = inv.covered c text (rw (← bytes_eq_sound coll c y) (before ∙ e)) in
                (b, e, ground (arith, album c b, p))
          ]
        ]

    -- Linking a blob to an album keeps what a user has consistent.
    pub link-IsConsistent : IsConsistent db l u after_link
    link-IsConsistent =
        let refs = link_refs db laws l u s coll blob (tohex blob) entry filename full in
        let owners = link_owners db laws l u s coll blob (tohex blob) entry filename full in
        let inode = link_inode db laws l u s coll blob (tohex blob) entry filename full in
        let list = link_list db laws l u s coll blob (tohex blob) entry filename full in
        let exists_refs =
          link_exists_refs db laws l u s coll blob (tohex blob) entry filename full in
        let exists_album =
          link_exists_album db laws l u s coll blob (tohex blob) entry filename full in
        record {
          linked = λ b c. ground (arith, album c b, refs b c, inv.linked b c);
          owned = λ b. ground (arith, owners b u, exists_refs b, inv.owned b, bytes_eq_refl u);
          stored = λ b. ground (arith, inode b, exists_refs b, inv.stored b);
          listed = λ c. ground (arith, list c, exists_album c, inv.listed c);
          covered = link-IsCovered;
        }
