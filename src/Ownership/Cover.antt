-- ===== src/Ownership/Cover.antt =====
-- `set_cover_command` of src/server/hrb/Ownership.cc.
use hearty_rabbit.Prelude.{
  ◌≡◌, refl, true, false, some, inl, inr, if◌then◌else◌, Bytes, is_some, bytes_eq, bytes_eq_sound,
  Bool-cases, Option-cases, arith,
}
use hearty_rabbit.RedisKeys.{collection, collection_list}
use hearty_rabbit.Ownership.Store.{Db, DbLaws, hset}
use hearty_rabbit.Ownership.Scripts.{
  Lua, LuaLaws, returned, replied, set_cover_script, set_cover_of, album_of, tohex,
}
use hearty_rabbit.Ownership.Invariant.{IsConsistent}
use hearty_rabbit.Ownership.Relist.{
  Kept, relist-AllButList, IsConsistent-AllButList, relist_album, relist_exists,
  listed-IsConsistent,
}
use hearty_rabbit.Ownership.Unlink.Trim.{cover_of_decodes}
use hearty_rabbit.Ownership.Fields.{exists_field}

module _ {ℓ κ} {S : Type ℓ} {J : Type κ} (db : Db S) (laws : DbLaws db) (l : Lua J) (u : Bytes)
    (s : S) (coll cover : Bytes) (inv : IsConsistent db l u s) where
  -- The blob is in the album: the list gets the album with the new cover.
  set_there :
      is_some (db.hget s (collection u coll) cover) ≡ true
      → (a : J) × (set_cover_script db l u s coll (tohex cover) cover
          ≡ returned
              (db.call s (hset (collection_list u) coll (l.encode (l.with_cover a (tohex cover)))))
              true)
  unfolding set_cover_script album_of set_cover_of
  set_there y = elim (Option-cases (db.hget s (collection_list u) coll)) [
    | inl n ↦ absurd (
        let e : db.exists s (collection u coll) ≡ true =
          exists_field db laws u s (collection u coll) cover (unfold collection in refl) y in
        let bad : false ≡ true = rw (← e, ← inv.listed coll, n) in cc)
    | inr (text, e) ↦
        let (b, k, there) = inv.covered coll text e in
        let (a, d, c) = cover_of_decodes db laws l u text (tohex b) k in
        (a, rw (set_cover_script, e, y, album_of, d, set_cover_of))
  ]

  set_missing :
      is_some (db.hget s (collection u coll) cover) ≡ false
      → set_cover_script db l u s coll (tohex cover) cover ≡ returned s false
  unfolding set_cover_script
  set_missing n = elim (Option-cases (db.hget s (collection_list u) coll)) [
    | inl e ↦ rw (set_cover_script, e)
    | inr (text, e) ↦ rw (set_cover_script, e, n)
  ]

  relisted :
      LuaLaws l
      → is_some (db.hget s (collection u coll) cover) ≡ true
      → (a : J)
      → IsConsistent db l u
          (db.call s (hset (collection_list u) coll (l.encode (l.with_cover a (tohex cover)))))
  relisted lua y a =
      let v = l.encode (l.with_cover a (tohex cover)) in
      let w = hset (collection_list u) coll v in
      let kept =
        relist-AllButList db laws l u s w refl (IsConsistent-AllButList db laws l u s inv) in
      let list : (c : Bytes)
          → db.hget (db.call s w) (collection_list u) c
            ≡ (if bytes_eq coll c then some v else db.hget s (collection_list u) c) =
        λ c. laws.hget_hset s (collection_list u) coll v c (unfold collection_list in refl) in
      let here : (c : Bytes) → bytes_eq coll c ≡ true → db.exists s (collection u c) ≡ true = λ c e.
        rw (← bytes_eq_sound coll c e)
          (exists_field db laws u s (collection u coll) cover (unfold collection in refl) y) in
      listed-IsConsistent db laws l u (db.call s w) kept
        (λ c. ground (arith, list c, relist_exists db laws l u s w c refl, here c, inv.listed c))
        (λ c text h. elim (Bool-cases (bytes_eq coll c)) [
          | inl e ↦
              let same : text ≡ v = let e' : some v ≡ some text = rw (list c, e) at h in cc in
              (
                cover,
                rw same (lua.cover_of-with_cover a (tohex cover)),
                rw (relist_album db laws l u s w c cover refl, ← bytes_eq_sound coll c e) y,
              )
          | inr n ↦
              let (b, k, p) = inv.covered c text (rw (list c, n) at h) in
              (b, k, rw (relist_album db laws l u s w c b refl) p)
        ])

  -- Setting the cover of an album raises no error and keeps what a user has consistent. It is done
  -- exactly if the album has the blob.
  pub set_cover-IsConsistent :
      LuaLaws l
      → Kept db l u (set_cover_script db l u s coll (tohex cover) cover)
        × (replied (set_cover_script db l u s coll (tohex cover) cover)
            ≡ is_some (db.hget s (collection u coll) cover))
  set_cover-IsConsistent lua = elim (Bool-cases (is_some (db.hget s (collection u coll) cover))) [
    | inl y ↦ let (a, e) = set_there y in rw e ((refl, relisted lua y a), rw y)
    | inr n ↦ rw (set_missing n) ((refl, inv), rw n)
  ]
